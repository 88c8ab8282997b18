-- ===== src/Fleet/Store/Refinement.antt =====
-- The store as what it promises: a function from host ids to their last manifests.
use mathlib.Core.Path.{fun_ext}
use kwt.Common.{
  ◌≡◌, refl, sym, ap, ◌∙◌, inl, inr, Bool, true, false, All, Option, none, some, List, [], ◌∷◌,
  Text, arith, Bool-cases, if◌then◌else◌, ◌=?◌, eq_sound, Result, ok, err, bind-ok, ok_inj, lookup,
  insert, erase, lookup-insert_self, lookup-insert_ne, lookup-erase_self, lookup-erase_ne,
}
use kwt.Url.Repository.{NetUrl}
use kwt.Fleet.Types.{Manifest, StoreFile, FleetError}
use kwt.Fleet.Validation.{require_normalized, validate_store_manifest}
use kwt.Fleet.Store.{
  Json, Directory, Faults, unless, read, called, locked, write, write_changed, with_manifest,
  mentions, without_host, is_found, changed_by_put, put, changed_by_delete, delete, Op, put_op,
  delete_op, apply, run,
}
use kwt.Fleet.Store.Writing.{
  IsJson, contents, read_sound, Written, write-Written, contents-written, contents-utf8,
  with_manifest-utf8, without_host-utf8,
}
use kwt.Fleet.Utf8.{is_utf8_manifest, is_utf8_file}

abbrev pub View : Type 0
View = Text → Option Manifest

-- A function, changed at one host.
abbrev pub update : View → Text → Option Manifest → View
update v host value id = if id =? host then value else v id

-- What a call that has succeeded makes of the function.
abbrev pub effect : Op → View → View
effect (put_op faults manifest) v = update v manifest.host_id (some manifest)
effect (delete_op faults id) v = update v id none

abbrev pub replay_op : Op → Result FleetError Unit → View → View
replay_op op (ok _) v = effect op v
replay_op op (err e) v = v

abbrev pub replay_ops : List Op → List (Result FleetError Unit) → View → View
replay_ops [] results v = v
replay_ops (op ∷ ops) [] v = v
replay_ops (op ∷ ops) (r ∷ results) v = replay_ops ops results (replay_op op r v)

-- A call whose manifest is valid UTF-8, as what encoding/json has decoded is.
abbrev pub IsUtf8Op : Op → Type 0
IsUtf8Op (put_op faults manifest) = is_utf8_manifest manifest ≡ true
IsUtf8Op (delete_op faults id) = Unit

none-some : (f : StoreFile) → none ≡ some f → ⊥
none-some f h = ground arith

pub some_inj : (f g : StoreFile) → some f ≡ some g → f ≡ g
some_inj f g h = ground arith

pub if-none : (b : Bool) (f : StoreFile) → none ≡ (if b then some f else none) → b ≡ false
if-none b f h = ground arith

pub if-some : (b : Bool) (f g : StoreFile) → some f ≡ (if b then some g else none) → f ≡ g
if-some b f g h = ground arith

module _ {Body : Type 0} (json : Json Body) where
  -- What the store holds.
  abbrev pub view : Directory Body → View
  view d id = lookup id (contents json d).manifests

  -- A result that leaves the view of a file, or has failed and leaves the view of the directory.
  abbrev pub Leaves : View → Directory Body → Result FleetError Unit × Directory Body → Type 0
  Leaves v d (ok _, e) = (id : Text) → view e id ≡ v id
  Leaves v d (err _, e) = e.file ≡ d.file

  Written-Leaves :
      (file : StoreFile) (d : Directory Body) (r : Result FleetError Unit × Directory Body)
      → IsJson json
      → is_utf8_file file ≡ true
      → Written json file d r
      → Leaves (λ id. lookup id file.manifests) d r
  unfolding Written
  Written-Leaves file d (ok _, e) j v (body, (h, k)) = (contents-written json file body e j v h k).1
  Written-Leaves file d (err x, e) j v h = h

  Leaves-mono :
      (v w : View) (d : Directory Body) (r : Result FleetError Unit × Directory Body)
      → ((id : Text) → v id ≡ w id)
      → Leaves v d r
      → Leaves w d r
  Leaves-mono v w d (ok _, e) h k = λ id. k id ∙ h id
  Leaves-mono v w d (err _, e) h k = k

  -- The rest of a method, on the result of its first part.
  changed-Leaves :
      (faults : Faults) (d : Directory Body) (v : View) (r : Result FleetError (Option StoreFile))
      → IsJson json
      → (r ≡ ok none → (id : Text) → view d id ≡ v id)
      → ((file : StoreFile)
          → r ≡ ok (some file)
          → (is_utf8_file file ≡ true) × ((id : Text) → lookup id file.manifests ≡ v id))
      → Leaves v d (write_changed json faults d r)
  unfolding write_changed
  changed-Leaves faults d v (err e) j same new = refl
  changed-Leaves faults d v (ok none) j same new = same refl
  changed-Leaves faults d v (ok (some file)) j same new =
      Leaves-mono (λ id. lookup id file.manifests) v d (write json faults file d) (new file refl).1
        (Written-Leaves file d (write json faults file d) j (new file refl).0
          (write-Written json faults file d))

  -- Where `Put` comes to its last step, the manifest is valid and the file was read.
  pub put_first :
      (net : NetUrl) (faults : Faults) (m : Manifest) (d : Directory Body) (o : Option StoreFile)
      → changed_by_put json net faults m d ≡ ok o
      → (validate_store_manifest net m ≡ ok tt)
        × (o ≡ some (with_manifest json m (contents json d)))
  unfolding changed_by_put
  put_first net faults m d o h =
      let (_, (_, h1)) = bind-ok (unless (faults.context called)) _ o h in
      let (_, (valid, h2)) = bind-ok (validate_store_manifest net m) _ o h1 in
      let (_, (_, h3)) = bind-ok (unless (faults.context locked)) _ o h2 in
      let (file, (got, h4)) = bind-ok (read json faults d) _ o h3 in
      (
        valid,
        sym (ok_inj (some (with_manifest json m file)) o h4)
            ∙ ap (λ f. some (with_manifest json m f)) (read_sound json faults d file got),
      )

  pub delete_first :
      (faults : Faults) (id : Text) (d : Directory Body) (o : Option StoreFile)
      → changed_by_delete json faults id d ≡ ok o
      → o
        ≡ (if mentions id (contents json d) then some (without_host id (contents json d)) else none)
  unfolding changed_by_delete
  delete_first faults id d o h =
      let (_, (_, h1)) = bind-ok (unless (faults.context called)) _ o h in
      let (_, (_, h2)) = bind-ok (require_normalized id) _ o h1 in
      let (_, (_, h3)) = bind-ok (unless (faults.context locked)) _ o h2 in
      let (file, (got, h4)) = bind-ok (read json faults d) _ o h3 in
      sym (ok_inj (if mentions id file then some (without_host id file) else none) o h4)
      ∙ ap (λ f. if mentions id f then some (without_host id f) else none)
          (read_sound json faults d file got)

  with_manifest-update :
      (m : Manifest) (file : StoreFile) (id : Text)
      → lookup id (with_manifest json m file).manifests
        ≡ update (λ k. lookup k file.manifests) m.host_id (some m) id
  unfolding with_manifest
  with_manifest-update m file id = elim (Bool-cases (id =? m.host_id)) [
    | inl e ↦ rw e (
        ap (λ k. lookup k (insert m.host_id m file.manifests)) (eq_sound id m.host_id e)
        ∙ lookup-insert_self m.host_id m file.manifests)
    | inr n ↦ rw n (lookup-insert_ne id m.host_id m file.manifests n)
  ]

  without_host-update :
      (host : Text) (file : StoreFile) (id : Text)
      → lookup id (without_host host file).manifests
        ≡ update (λ k. lookup k file.manifests) host none id
  unfolding without_host
  without_host-update host file id = elim (Bool-cases (id =? host)) [
    | inl e ↦ rw e (
        ap (λ k. lookup k (erase host file.manifests)) (eq_sound id host e)
        ∙ lookup-erase_self host file.manifests)
    | inr n ↦ rw n (lookup-erase_ne id host file.manifests n)
  ]

  -- A host that is not mentioned is not in the function either.
  unmentioned-update :
      (host : Text) (file : StoreFile) (id : Text)
      → mentions host file ≡ false
      → lookup id file.manifests ≡ update (λ k. lookup k file.manifests) host none id
  unfolding mentions
  unmentioned-update host file id h = elim (Bool-cases (id =? host)) [
    | inl e ↦ rw (e, eq_sound id host e) (not_found (lookup host file.manifests) (ground arith))
    | inr n ↦ rw n refl
  ]
    where
      not_found : (o : Option Manifest) → is_found o ≡ false → o ≡ none
      not_found none k = refl
      not_found (some m) k = ground arith

  put-Leaves :
      (net : NetUrl) (faults : Faults) (m : Manifest) (d : Directory Body)
      → IsJson json
      → is_utf8_manifest m ≡ true
      → Leaves (update (view d) m.host_id (some m)) d (put json net faults m d)
  unfolding put
  put-Leaves net faults m d j u =
      changed-Leaves faults d (update (view d) m.host_id (some m))
        (changed_by_put json net faults m d) j
        (λ e.
          elim (none-some (with_manifest json m (contents json d))
            ((put_first net faults m d none e).1)) [ ])
        (λ file e.
          let same =
            some_inj file (with_manifest json m (contents json d))
              (put_first net faults m d (some file) e).1 in
          (
            ap is_utf8_file same
                ∙ with_manifest-utf8 json m (contents json d) j u (contents-utf8 json d j),
            λ id.
                ap (λ f. lookup id f.manifests) same ∙ with_manifest-update m (contents json d) id,
          ))

  delete-Leaves :
      (faults : Faults) (id : Text) (d : Directory Body)
      → IsJson json
      → Leaves (update (view d) id none) d (delete json faults id d)
  unfolding delete
  delete-Leaves faults host d j =
      changed-Leaves faults d (update (view d) host none) (changed_by_delete json faults host d) j
        (λ e id. unmentioned-update host (contents json d) id (
          if-none (mentions host (contents json d)) (without_host host (contents json d))
            (delete_first faults host d none e)))
        (λ file e.
          let same =
            if-some (mentions host (contents json d)) file (without_host host (contents json d))
              (delete_first faults host d (some file) e) in
          (
            ap is_utf8_file same
                ∙ without_host-utf8 host (contents json d) (contents-utf8 json d j),
            λ id.
                ap (λ f. lookup id f.manifests) same
                ∙ without_host-update host (contents json d) id,
          ))

  pub apply-Leaves :
      (net : NetUrl) (op : Op) (d : Directory Body)
      → IsJson json
      → IsUtf8Op op
      → Leaves (effect op (view d)) d (apply json net op d)
  unfolding apply
  apply-Leaves net (put_op faults m) d j u = put-Leaves net faults m d j u
  apply-Leaves net (delete_op faults id) d j u = delete-Leaves faults id d j

  pub same-file : (d e : Directory Body) (id : Text) → e.file ≡ d.file → view e id ≡ view d id
  unfolding contents
  same-file d e id h = ap (λ o. lookup id (contents json (record d { file = o })).manifests) h

  Leaves-replay_op :
      (op : Op) (d : Directory Body) (r : Result FleetError Unit × Directory Body)
      → Leaves (effect op (view d)) d r
      → view r.1 ≡ replay_op op r.0 (view d)
  Leaves-replay_op op d (ok _, e) h = fun_ext h
  Leaves-replay_op op d (err x, e) h = fun_ext (λ id. same-file d e id h)

  -- Where the encoder keeps to its documentation and the manifests that are put are valid UTF-8, and
  -- whatever the context and the file system do in each call, the store holds after any calls what
  -- those that have returned no error say: a put updates one host, a delete takes one host away, and a
  -- failed call changes no host.
  pub run_refines :
      (net : NetUrl) (ops : List Op) (d : Directory Body)
      → IsJson json
      → All IsUtf8Op ops
      → view (run json net ops d).1 ≡ replay_ops ops (run json net ops d).0 (view d)
  unfolding run
  run_refines net [] d j u = refl
  run_refines net (op ∷ ops) d j u =
      run_refines net ops (apply json net op d).1 j u.1
      ∙ ap (replay_ops ops (run json net ops (apply json net op d).1).0)
          (Leaves-replay_op op d (apply json net op d) (apply-Leaves net op d j u.0))
