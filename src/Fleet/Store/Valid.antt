-- ===== src/Fleet/Store/Valid.antt =====
-- What the store holds after any calls, after a deletion, and after a call that has failed.
use kwt.Common.{
  ◌≡◌, refl, sym, ap, ◌∙◌, subst, inl, inr, Bool, true, false, All, Option, none, some, List, [],
  ◌∷◌, Text, arith, Bool-cases, if◌then◌else◌, ◌=?◌, eq_sound, Result, ok, err, lookup,
}
use kwt.Url.Repository.{NetUrl}
use kwt.Fleet.Types.{Manifest, StoreFile, FleetError}
use kwt.Fleet.Validation.{validate_store_manifest}
use kwt.Fleet.Warnings.{sort_warnings}
use kwt.Fleet.Store.{
  Json, Directory, Faults, write_changed, changed_by_put, put, Op, put_op, delete_op, apply, run,
}
use kwt.Fleet.Store.Writing.{IsJson, contents}
use kwt.Fleet.Store.Refinement.{
  View, IsUtf8Op, update, effect, view, Leaves, apply-Leaves, put_first, same-file,
}

found_new :
    (b : Bool) (m n : Manifest) (o : Option Manifest)
    → b ≡ true
    → (if b then some m else o) ≡ some n
    → m ≡ n
found_new b m n o h e = ground arith

found_none :
    (b : Bool) (n : Manifest) (o : Option Manifest)
    → b ≡ true
    → (if b then none else o) ≡ some n
    → ⊥
found_none b n o h e = ground arith

found_old :
    (b : Bool) (x : Option Manifest) (n : Manifest) (o : Option Manifest)
    → b ≡ false
    → (if b then x else o) ≡ some n
    → o ≡ some n
found_old b x n o h e = ground arith

abbrev pub empty_directory : {Body : Type 0} → Directory Body
empty_directory = record { file = none; temporary = 0 }

module _ {Body : Type 0} (json : Json Body) where
  written_ok :
      (faults : Faults) (d : Directory Body) (r : Result FleetError (Option StoreFile))
      → (write_changed json faults d r).0 ≡ ok tt
      → (o : Option StoreFile) × (r ≡ ok o)
  unfolding write_changed
  written_ok faults d (err e) h = ground arith
  written_ok faults d (ok o) h = (o, refl)

  put-valid :
      (net : NetUrl) (faults : Faults) (m : Manifest) (d : Directory Body)
      → (put json net faults m d).0 ≡ ok tt
      → validate_store_manifest net m ≡ ok tt
  unfolding put
  put-valid net faults m d h =
      let (o, e) = written_ok faults d (changed_by_put json net faults m d) h in
      (put_first json net faults m d o e).0

  -- Every manifest of a view is valid and stands under its own id.
  abbrev IsStored : NetUrl → View → Type 0
  IsStored net v =
      (id : Text) (m : Manifest)
      → v id ≡ some m
      → (m.host_id ≡ id) × (validate_store_manifest net m ≡ ok tt)

  update-IsStored :
      (net : NetUrl) (v : View) (m : Manifest)
      → validate_store_manifest net m ≡ ok tt
      → IsStored net v
      → IsStored net (update v m.host_id (some m))
  update-IsStored net v m valid h id n e = elim (Bool-cases (id =? m.host_id)) [
    | inl same ↦
        subst (λ x. (x.host_id ≡ id) × (validate_store_manifest net x ≡ ok tt))
          (found_new (id =? m.host_id) m n (v id) same e) (sym (eq_sound id m.host_id same), valid)
    | inr ne ↦ h id n (found_old (id =? m.host_id) (some m) n (v id) ne e)
  ]

  erase-IsStored :
      (net : NetUrl) (v : View) (host : Text) → IsStored net v → IsStored net (update v host none)
  erase-IsStored net v host h id n e = elim (Bool-cases (id =? host)) [
    | inl same ↦ elim (found_none (id =? host) n (v id) same e) [ ]
    | inr ne ↦ h id n (found_old (id =? host) none n (v id) ne e)
  ]

  effect-IsStored :
      (net : NetUrl) (op : Op) (d : Directory Body)
      → (apply json net op d).0 ≡ ok tt
      → IsStored net (view json d)
      → IsStored net (effect op (view json d))
  unfolding apply
  effect-IsStored net (put_op faults m) d e h =
      update-IsStored net (view json d) m (put-valid net faults m d e) h
  effect-IsStored net (delete_op faults id) d e h = erase-IsStored net (view json d) id h

  result-IsStored :
      (net : NetUrl) (op : Op) (d : Directory Body) (r : Result FleetError Unit × Directory Body)
      → apply json net op d ≡ r
      → Leaves json (effect op (view json d)) d r
      → IsStored net (view json d)
      → IsStored net (view json r.1)
  result-IsStored net op d (ok _, e) same l h id m found =
      effect-IsStored net op d (ap (λ r. r.0) same) h id m (sym (l id) ∙ found)
  result-IsStored net op d (err x, e) same l h id m found =
      h id m (sym (same-file json d e id l) ∙ found)

  apply-IsStored :
      (net : NetUrl) (op : Op) (d : Directory Body)
      → IsJson json
      → IsUtf8Op op
      → IsStored net (view json d)
      → IsStored net (view json (apply json net op d).1)
  apply-IsStored net op d j u h =
      result-IsStored net op d (apply json net op d) refl (apply-Leaves json net op d j u) h

  run-IsStored :
      (net : NetUrl) (ops : List Op) (d : Directory Body)
      → IsJson json
      → All IsUtf8Op ops
      → IsStored net (view json d)
      → IsStored net (view json (run json net ops d).1)
  unfolding run
  run-IsStored net [] d j u h = h
  run-IsStored net (op ∷ ops) d j u h =
      run-IsStored net ops (apply json net op d).1 j u.1 (apply-IsStored net op d j u.0 h)

  empty-IsStored : (net : NetUrl) → IsStored net (view json empty_directory)
  unfolding contents lookup sort_warnings
  empty-IsStored net id m e = ground arith

  -- Where the encoder keeps to its documentation and the manifests that are put are valid UTF-8, every
  -- manifest that the store holds after any calls on a directory without a file is one that validation
  -- accepts, and stands under its own host id.
  pub run_stored :
      (net : NetUrl) (ops : List Op) (id : Text) (m : Manifest)
      → IsJson json
      → All IsUtf8Op ops
      → view json (run json net ops empty_directory).1 id ≡ some m
      → (m.host_id ≡ id) × (validate_store_manifest net m ≡ ok tt)
  run_stored net ops id m j u e =
      run-IsStored net ops empty_directory j u (empty-IsStored net) id m e
