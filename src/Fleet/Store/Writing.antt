-- ===== src/Fleet/Store/Writing.antt =====
-- What the file holds behind a call that has succeeded, and behind one that has failed.
use kwt.Common.{
  ◌+◌, ◌-◌, ◌≡◌, refl, ap, ◌∙◌, Option, none, some, Text, arith, if-elim, Result, ok, err, ◌>>◌,
  lookup, insert, erase, all, true, &&-eq-true,
}
use kwt.Fleet.Types.{StoreFile, Manifest, FleetError}
use kwt.Fleet.Warnings.{
  sort_warnings, upsert_warning, warnings_without, host_info_changed, collision_warning,
}
use kwt.Fleet.Utf8.{
  is_utf8, is_utf8_manifest, is_utf8_warning, is_utf8_file, is_utf8_file-parts, is_utf8_file-made,
  is_utf8-insert, is_utf8-erase, is_utf8-sort_warnings, is_utf8-upsert_warning,
  is_utf8-warnings_without, is_utf8-collision_warning,
}
use kwt.Fleet.Store.{
  Json, Directory, Faults, new_store_file, sorted_file, unless, parse_body, read_body, read, closed,
  step, and_step, renamed, fill_temp, finish_temp, before_temp, write_body, write, with_manifest,
  warnings_with, without_host, reading, read_done, writing,
}

-- What encoding/json and strconv document: a file of valid UTF-8 that was encoded decodes, to a map
-- that is equal and to equal warnings; what is decoded is valid UTF-8, since other bytes are replaced;
-- and a quoted text is valid UTF-8, since other bytes are escaped.
pub record IsJson {Body : Type 0} (json : Json Body) : Type 0 where
  pub decoded :
      (f : StoreFile) (body : Body)
      → is_utf8_file f ≡ true
      → json.marshal f ≡ some body
      → (g : StoreFile) × ((json.unmarshal body ≡ some g)
          × ((g.warnings ≡ f.warnings)
              × ((id : Text) → lookup id g.manifests ≡ lookup id f.manifests)))
  pub readable :
      (body : Body) (g : StoreFile) → json.unmarshal body ≡ some g → is_utf8_file g ≡ true
  pub quoted : (s : Text) → is_utf8 (json.quote s) ≡ true

sorted_file-utf8 :
    (file : StoreFile) → is_utf8_file file ≡ true → is_utf8_file (sorted_file file) ≡ true
unfolding sorted_file
sorted_file-utf8 file h =
    let (m, w) = is_utf8_file-parts file.manifests file.warnings h in
    is_utf8_file-made file.manifests (sort_warnings file.warnings) m
      (is_utf8-sort_warnings file.warnings w)

unless-then :
    {A : Type 0} (o : Option FleetError) (m : Result FleetError A) (a : A)
    → (unless o >> m) ≡ ok a
    → m ≡ ok a
unless-then none m a h = h
unless-then (some e) m a h = ground arith

pub without_host-utf8 :
    (id : Text) (file : StoreFile)
    → is_utf8_file file ≡ true
    → is_utf8_file (without_host id file) ≡ true
unfolding without_host
without_host-utf8 id file h =
    let (ms, ws) = is_utf8_file-parts file.manifests file.warnings h in
    is_utf8_file-made (erase id file.manifests) (warnings_without id file.warnings)
      (is_utf8-erase id file.manifests ms) (is_utf8-warnings_without id file.warnings ws)

empty-utf8 : is_utf8_file new_store_file ≡ true
unfolding is_utf8_file
empty-utf8 = refl

module _ {Body : Type 0} (json : Json Body) where
  abbrev decoded_or_new : Option StoreFile → StoreFile
  decoded_or_new none = new_store_file
  decoded_or_new (some f) = f

  abbrev body_contents : Option Body → StoreFile
  body_contents none = new_store_file
  body_contents (some body) = decoded_or_new (json.unmarshal body)

  -- The file that a call reads where nothing fails.
  unfoldable pub contents : Directory Body → StoreFile
  unfolding sorted_file
  contents d = sorted_file (body_contents d.file)

  parse_body_sound :
      (o : Option StoreFile) (file : StoreFile)
      → parse_body json o ≡ ok file
      → file ≡ sorted_file (decoded_or_new o)
  unfolding parse_body
  parse_body_sound none file h = ground arith
  parse_body_sound (some f) file h = ground arith

  read_body_sound :
      (faults : Faults) (o : Option Body) (file : StoreFile)
      → read_body json faults o ≡ ok file
      → file ≡ sorted_file (body_contents o)
  unfolding read_body sorted_file sort_warnings
  read_body_sound faults none file h = ground arith
  read_body_sound faults (some body) file h =
      parse_body_sound (json.unmarshal body) file
        (unless-then (faults.context read_done) (parse_body json (json.unmarshal body)) file h)

  pub read_sound :
      (faults : Faults) (d : Directory Body) (file : StoreFile)
      → read json faults d ≡ ok file
      → file ≡ contents d
  unfolding read contents
  read_sound faults d file h = read_body_sound faults d.file file (
      unless-then faults.read_file (read_body json faults d.file) file (
        unless-then (faults.context reading)
          (unless faults.read_file >> read_body json faults d.file) file h))

  -- A write that succeeds leaves the encoded file, and one that fails the old one.
  unfoldable pub Written :
      StoreFile → Directory Body → Result FleetError Unit × Directory Body → Type 0
  unfolding sorted_file
  Written file d (ok _, e) =
      (body : Body) × ((json.marshal (sorted_file file) ≡ some body) × (e.file ≡ some body))
  Written file d (err _, e) = e.file ≡ d.file

  -- The directory behind the operations on the temporary file: the rename has happened, or the
  -- directory is as it was.
  abbrev pub IsFilled : Body → Directory Body → Result FleetError Unit × Directory Body → Type 0
  IsFilled body d (ok _, e) = e ≡ renamed body d
  IsFilled body d (err _, e) = e ≡ d

  pub fill_temp-IsFilled :
      (faults : Faults) (body : Body) (d : Directory Body)
      → IsFilled body d (fill_temp json faults body d)
  unfolding fill_temp step and_step
  fill_temp-IsFilled faults body d =
      by_faults faults.write_temp faults.close_temp (faults.context closed) faults.rename
    where
      by_faults :
          (w c t r : Option FleetError)
          → IsFilled body d (
              and_step (step (λ x. x) (unless w) d) (λ d1.
                and_step (step (λ x. x) (unless c) d1) (λ d2.
                  and_step
                    (step (λ x. x) (unless t) d2)
                    (λ d3. step (renamed body) (unless r) d3))))
      by_faults (some e) c t r = refl
      by_faults none (some e) t r = refl
      by_faults none none (some e) r = refl
      by_faults none none none (some e) = refl
      by_faults none none none none = refl

  finish_temp-Written :
      (faults : Faults) (file : StoreFile) (body : Body) (d e : Directory Body)
      (r : Result FleetError Unit × Directory Body)
      → json.marshal (sorted_file file) ≡ some body
      → e.file ≡ d.file
      → IsFilled body e r
      → Written file d (finish_temp json faults r)
  unfolding Written finish_temp
  finish_temp-Written faults file body d e (ok _, f) h s k = (body, (h, ap (λ x. x.file) k))
  finish_temp-Written faults file body d e (err x, f) h s k =
      if-elim {A = Directory Body} (λ y. y.file ≡ d.file) faults.remove_fails f
        (record f { temporary = f.temporary - 1 }) (λ _. ap (λ y. y.file) k ∙ s)
        (λ _. ap (λ y. y.file) k ∙ s)

  before_temp_sound :
      (faults : Faults) (o : Option Body) (body : Body)
      → (unless (faults.context writing) >> before_temp json faults o) ≡ ok body
      → o ≡ some body
  unfolding before_temp
  before_temp_sound faults none body h = ground arith
  before_temp_sound faults (some b) body h = ground arith

  write_body-Written :
      (faults : Faults) (file : StoreFile) (d : Directory Body) (r : Result FleetError Body)
      → (unless (faults.context writing)
          >> before_temp json faults (json.marshal (sorted_file file)))
        ≡ r
      → Written file d (write_body json faults d r)
  unfolding Written write_body
  write_body-Written faults file d (err e) h = refl
  write_body-Written faults file d (ok body) h =
      let e : Directory Body = record d { temporary = d.temporary + 1 } in
      finish_temp-Written faults file body d e (fill_temp json faults body e)
        (before_temp_sound faults (json.marshal (sorted_file file)) body h) refl
        (fill_temp-IsFilled faults body e)

  pub write-Written :
      (faults : Faults) (file : StoreFile) (d : Directory Body)
      → Written file d (write json faults file d)
  unfolding write
  write-Written faults file d =
      write_body-Written faults file d
        (unless (faults.context writing)
          >> before_temp json faults (json.marshal (sorted_file file)))
        refl

  -- What a call reads is valid UTF-8.
  pub contents-utf8 : (d : Directory Body) → IsJson json → is_utf8_file (contents d) ≡ true
  unfolding contents sorted_file
  contents-utf8 d j = sorted_file-utf8 (body_contents d.file) (of_body d.file)
    where
      of_decoded :
          (o : Option StoreFile)
          → ((g : StoreFile) → o ≡ some g → is_utf8_file g ≡ true)
          → is_utf8_file (decoded_or_new o) ≡ true
      of_decoded none h = empty-utf8
      of_decoded (some g) h = h g refl

      of_body : (o : Option Body) → is_utf8_file (body_contents o) ≡ true
      of_body none = empty-utf8
      of_body (some body) = of_decoded (json.unmarshal body) (λ g h. j.readable body g h)

  -- The file with a manifest, or without a host.
  pub with_manifest-utf8 :
      (m : Manifest) (file : StoreFile)
      → IsJson json
      → is_utf8_manifest m ≡ true
      → is_utf8_file file ≡ true
      → is_utf8_file (with_manifest json m file) ≡ true
  unfolding with_manifest
  with_manifest-utf8 m file j h k =
      let (ms, ws) = is_utf8_file-parts file.manifests file.warnings k in
      is_utf8_file-made (insert m.host_id m file.manifests) _ (is_utf8-insert m file.manifests h ms)
        (warned (lookup m.host_id file.manifests) ws)
    where
      warned :
          (o : Option Manifest)
          → all (λ w. is_utf8_warning w) file.warnings ≡ true
          → all (λ w. is_utf8_warning w) (warnings_with json m o file.warnings) ≡ true
      warned none w = unfold warnings_with in w
      warned (some existing) w =
          unfold warnings_with in
          if-elim (λ ws. all (λ v. is_utf8_warning v) ws ≡ true) (host_info_changed existing m)
            (upsert_warning file.warnings (collision_warning json.quote existing m)) file.warnings
            (λ _.
              is_utf8-upsert_warning file.warnings (collision_warning json.quote existing m) w
                (is_utf8-collision_warning json.quote existing m j.quoted (&&-eq-true _ _ h).0))
            (λ _. w)

  -- Where a file was written, reading finds it.
  pub contents-written :
      (file : StoreFile) (body : Body) (e : Directory Body)
      → IsJson json
      → is_utf8_file file ≡ true
      → json.marshal (sorted_file file) ≡ some body
      → e.file ≡ some body
      → ((contents e).warnings ≡ sort_warnings (sort_warnings file.warnings))
        × ((id : Text) → lookup id (contents e).manifests ≡ lookup id file.manifests)
  unfolding contents sorted_file
  contents-written file body e j v h k =
      let (g, (decodes, (warnings, manifests))) =
        j.decoded (sorted_file file) body (sorted_file-utf8 file v) h in
      let found = ap (body_contents) k ∙ ap decoded_or_new decodes in
      (
        ap (λ f. sort_warnings f.warnings) found ∙ ap sort_warnings warnings,
        λ id. ap (λ f. lookup id f.manifests) found ∙ manifests id,
      )
