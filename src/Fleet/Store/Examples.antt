-- ===== src/Fleet/Store/Examples.antt =====
-- Calls on a store, with an encoder that keeps the file as it is and decodes valid UTF-8 only.
use kwt.Fleet.Utf8.{is_utf8, is_utf8_file}
use kwt.Common.{
  arith, ap, sym, ◌∙◌, lookup, Bool, true, All, if◌then◌else◌, ◌≡◌, refl, false, none, some, List,
  [], ◌∷◌, Text, codes, ok, err,
}
use kwt.Url.Repository.{NetUrl}
use kwt.Fleet.Types.{Manifest, StoreFile, outside}
use kwt.Fleet.Validation.{validate_store_manifest}
use kwt.Fleet.Store.{Json, Directory, Faults, Op, put_op, delete_op, apply, run}
use kwt.Fleet.Store.Writing.{IsJson, contents}
use kwt.Fleet.Store.Refinement.{IsUtf8Op, some_inj, view, replay_ops, run_refines}
use kwt.Fleet.Store.Valid.{empty_directory, run_stored}
use kwt.Fleet.Store.Failing.{apply_failed}

abbrev plain_json : Json StoreFile
plain_json = record {
  marshal = some;
  unmarshal = λ f. if is_utf8_file f then some f else none;
  quote = λ s. if is_utf8 s then s else [];
  fleet_state_version = λ s. ok (codes "v");
}

unmarshal_utf8 :
    (b : Bool) (f g : StoreFile)
    → is_utf8_file f ≡ b
    → (if b then some f else none) ≡ some g
    → is_utf8_file g ≡ true
unmarshal_utf8 true f g h e = ground (arith, ap is_utf8_file (some_inj f g e), h)
unmarshal_utf8 false f g h e = ground arith

plain_json-IsJson : IsJson plain_json
unfolding is_utf8
plain_json-IsJson = record {
  decoded = λ f body v h.
      let same = some_inj f body h in
      (
        body,
        (
          rw (ap is_utf8_file (sym same) ∙ v) refl,
          (ap (λ x. x.warnings) (sym same), λ id. ap (λ x. lookup id x.manifests) (sym same)),
        ),
      );
  readable = λ body g h. unmarshal_utf8 (is_utf8_file body) body g refl h;
  quoted = λ s. ground arith;
}

-- No address is read here.
abbrev no_net : NetUrl
no_net = record { parse = λ s. none; print = λ u. [] }

abbrev no_faults : Faults
no_faults = record {
  context = λ c. none;
  read_file = none;
  mkdir_all = none;
  create_temp = none;
  write_temp = none;
  close_temp = none;
  rename = none;
  remove_fails = false;
}

abbrev full_disk : Faults
full_disk = record no_faults { write_temp = some (outside 7) }

abbrev host_manifest : Text → Text → Manifest
host_manifest id name = record {
  schema_version = 1;
  host_id = id;
  host = record { hostname = name; platform = codes "linux" };
  observed_at = 2;
  projects = [];
  worktrees = [];
}

-- Two hosts, a failing call, a collision, and a deletion.
abbrev calls : List Op
calls =
    put_op no_faults (host_manifest (codes "a") (codes "A"))
    ∷ put_op no_faults (host_manifest (codes "b") (codes "B"))
    ∷ put_op full_disk (host_manifest (codes "c") (codes "C"))
    ∷ put_op no_faults (host_manifest (codes "a") (codes "A2"))
    ∷ delete_op no_faults (codes "b")
    ∷ []

calls-IsUtf8Op : All IsUtf8Op calls
unfolding is_utf8
calls-IsUtf8Op = (refl, (refl, (refl, (refl, (tt, tt)))))

results_run :
    (run plain_json no_net calls empty_directory).0
    ≡ ok tt ∷ ok tt ∷ err (outside 7) ∷ ok tt ∷ ok tt ∷ []
unfolding run is_utf8_file
results_run = refl

found_run :
    view plain_json (run plain_json no_net calls empty_directory).1 (codes "a")
    ≡ some (host_manifest (codes "a") (codes "A2"))
unfolding run contents is_utf8_file
found_run = refl

run_refines_example :
    view plain_json (run plain_json no_net calls empty_directory).1
    ≡ replay_ops calls
        (run plain_json no_net calls empty_directory).0
        (view plain_json empty_directory)
run_refines_example =
    run_refines plain_json no_net calls empty_directory plain_json-IsJson calls-IsUtf8Op

run_stored_example :
    ((host_manifest (codes "a") (codes "A2")).host_id ≡ codes "a")
    × (validate_store_manifest no_net (host_manifest (codes "a") (codes "A2")) ≡ ok tt)
run_stored_example =
    run_stored plain_json no_net calls (codes "a") (host_manifest (codes "a") (codes "A2"))
      plain_json-IsJson calls-IsUtf8Op found_run

abbrev failing_call : Op
failing_call = put_op full_disk (host_manifest (codes "c") (codes "C"))

failing_run : (apply plain_json no_net failing_call empty_directory).0 ≡ err (outside 7)
unfolding apply
failing_run = refl

apply_failed_example : (apply plain_json no_net failing_call empty_directory).1 ≡ empty_directory
apply_failed_example =
    apply_failed plain_json no_net failing_call empty_directory (outside 7) refl failing_run

abbrev one_host : Directory StoreFile
one_host = record {
  file = some (record {
    manifests = (codes "a", host_manifest (codes "a") (codes "A")) ∷ [];
    warnings = record { code = codes "w"; about = codes "a"; message = [] } ∷ [];
  });
  temporary = 0;
}
