-- ===== src/Fleet/Store.antt =====
-- `FileStore` of internal/fleet/store.go. Its mutex makes each method one step on the directory of
-- the file. encoding/json is a parameter, and so is what the context and the file system answer.
pub mod Writing
mod Refinement
pub mod Valid
pub mod Failing
pub mod Deleting
mod Examples
use kwt.Common.{
  ℕ, suc, ◌+◌, ◌-◌, Bool, true, false, ◌||◌, not, Option, none, some, List, [], ◌∷◌, Text, codes,
  if◌then◌else◌, ◌=?◌, any, Result, ok, err, ◌>>=◌, ◌>>◌, require, Dict, lookup, insert, erase,
}
use kwt.Url.Repository.{NetUrl}
use kwt.Fleet.Types.{Manifest, FleetState, StoreFile, Warning, FleetError, outside}
use kwt.Fleet.Validation.{require_normalized, validate_store_manifest}
use kwt.Fleet.Warnings.{
  sort_warnings, upsert_warning, warnings_without, host_info_changed, collision_warning,
}
use kwt.Fleet.Grouping.{build_fleet_state}

-- `json.MarshalIndent` and `json.Unmarshal` of a store's file, `strconv.Quote`, and the digest.
pub record Json (Body : Type 0) : Type 0 where
  pub marshal : StoreFile → Option Body
  pub unmarshal : Body → Option StoreFile
  pub quote : Text → Text
  pub fleet_state_version : FleetState → Result FleetError Text

-- The file, if there is one, and the number of temporary files beside it.
pub record Directory (Body : Type 0) : Type 0 where
  pub file : Option Body
  pub temporary : ℕ

-- The tests of the context in one call.
pub data Check : Type 0 where
  called locked reading read_done writing marshalled closed grouping : Check

-- What fails in one call: the context at a test, and operations of the file system.
pub record Faults : Type 0 where
  pub context : Check → Option FleetError
  pub read_file : Option FleetError
  pub mkdir_all : Option FleetError
  pub create_temp : Option FleetError
  pub write_temp : Option FleetError
  pub close_temp : Option FleetError
  pub rename : Option FleetError
  pub remove_fails : Bool

abbrev pub unless : Option FleetError → Result FleetError Unit
unless none = ok tt
unless (some e) = err e

abbrev pub new_store_file : StoreFile
new_store_file = record { manifests = []; warnings = [] }

unfoldable pub sorted_file : StoreFile → StoreFile
unfolding sort_warnings
sorted_file file = record file { warnings = sort_warnings file.warnings }

abbrev pub is_found : Option Manifest → Bool
is_found none = false
is_found (some m) = true

unfoldable pub mentions : Text → StoreFile → Bool
unfolding lookup ◌=?◌
mentions id file = is_found (lookup id file.manifests) || any (λ w. w.about =? id) file.warnings

unfoldable pub without_host : Text → StoreFile → StoreFile
unfolding erase warnings_without
without_host id file = record {
  manifests = erase id file.manifests;
  warnings = warnings_without id file.warnings;
}

-- An operation that changes the directory where it does not fail.
unfoldable pub step :
    {Body : Type 0}
    → (Directory Body → Directory Body)
    → Result FleetError Unit
    → Directory Body
    → Result FleetError Unit × Directory Body
step change (ok _) d = (ok tt, change d)
step change (err e) d = (err e, d)

-- The next operation, where the one before it has not failed.
unfoldable pub and_step :
    {Body : Type 0}
    → Result FleetError Unit × Directory Body
    → (Directory Body → Result FleetError Unit × Directory Body)
    → Result FleetError Unit × Directory Body
and_step (ok _, d) next = next d
and_step (err e, d) next = (err e, d)

-- `os.Rename` of the temporary file, which has the body.
abbrev pub renamed : {Body : Type 0} → Body → Directory Body → Directory Body
renamed body d = record d { file = some body; temporary = d.temporary - 1 }

module _ {Body : Type 0} (json : Json Body) where
  unfoldable pub parse_body : Option StoreFile → Result FleetError StoreFile
  unfolding sorted_file
  parse_body none = err (outside 0)
  parse_body (some file) = ok (sorted_file file)

  unfoldable pub read_body : Faults → Option Body → Result FleetError StoreFile
  unfolding parse_body
  read_body faults none = ok new_store_file
  read_body faults (some body) = do
    unless (faults.context read_done)
    parse_body (json.unmarshal body)

  unfoldable pub read : Faults → Directory Body → Result FleetError StoreFile
  unfolding read_body
  read faults d = do
    unless (faults.context reading)
    unless faults.read_file
    read_body faults d.file

  -- Behind `os.CreateTemp`: a write, a close, a test of the context, and the rename, which takes the
  -- temporary file's name away. A step that fails leaves the directory to the next.
  unfoldable pub fill_temp :
      Faults → Body → Directory Body → Result FleetError Unit × Directory Body
  unfolding step and_step
  fill_temp faults body d = and_step (step (λ x. x) (unless faults.write_temp) d) (λ d1.
      and_step (step (λ x. x) (unless faults.close_temp) d1) (λ d2.
        and_step (step (λ x. x) (unless (faults.context closed)) d2)
          (λ d3. step (renamed body) (unless faults.rename) d3)))

  -- The deferred removal of the temporary file where there was an error.
  unfoldable pub finish_temp :
      Faults → Result FleetError Unit × Directory Body → Result FleetError Unit × Directory Body
  finish_temp faults (ok _, d) = (ok tt, d)
  finish_temp faults (err e, d) =
      (err e, if faults.remove_fails then d else (record d { temporary = d.temporary - 1 }))

  unfoldable pub before_temp : Faults → Option Body → Result FleetError Body
  before_temp faults none = err (outside 1)
  before_temp faults (some body) = do
    unless (faults.context marshalled)
    unless faults.mkdir_all
    unless faults.create_temp
    ok body

  unfoldable pub write_body :
      Faults → Directory Body → Result FleetError Body → Result FleetError Unit × Directory Body
  unfolding fill_temp finish_temp
  write_body faults d (err e) = (err e, d)
  write_body faults d (ok body) =
      finish_temp faults (fill_temp faults body (record d { temporary = d.temporary + 1 }))

  unfoldable pub write :
      Faults → StoreFile → Directory Body → Result FleetError Unit × Directory Body
  unfolding sorted_file before_temp write_body
  write faults file d =
      write_body faults d
        (unless (faults.context writing) >> before_temp faults (json.marshal (sorted_file file)))

  unfoldable pub warnings_with : Manifest → Option Manifest → List Warning → List Warning
  unfolding collision_warning host_info_changed upsert_warning
  warnings_with manifest none warnings = warnings
  warnings_with manifest (some existing) warnings =
      if host_info_changed existing manifest
      then upsert_warning warnings (collision_warning json.quote existing manifest)
      else warnings

  unfoldable pub with_manifest : Manifest → StoreFile → StoreFile
  unfolding lookup insert host_info_changed upsert_warning collision_warning warnings_with
  with_manifest manifest file = record {
    manifests = insert manifest.host_id manifest file.manifests;
    warnings = warnings_with manifest (lookup manifest.host_id file.manifests) file.warnings;
  }

  -- Writes what a method has made of the file, if it has not failed and changed something.
  unfoldable pub write_changed :
      Faults
      → Directory Body
      → Result FleetError (Option StoreFile)
      → Result FleetError Unit × Directory Body
  unfolding write
  write_changed faults d (err e) = (err e, d)
  write_changed faults d (ok none) = (ok tt, d)
  write_changed faults d (ok (some file)) = write faults file d

  -- `Put` up to the write.
  unfoldable pub changed_by_put :
      NetUrl → Faults → Manifest → Directory Body → Result FleetError (Option StoreFile)
  unfolding validate_store_manifest read with_manifest
  changed_by_put net faults manifest d = do
    unless (faults.context called)
    validate_store_manifest net manifest
    unless (faults.context locked)
    file ← read faults d
    ok (some (with_manifest manifest file))

  unfoldable pub put :
      NetUrl → Faults → Manifest → Directory Body → Result FleetError Unit × Directory Body
  unfolding changed_by_put write_changed
  put net faults manifest d = write_changed faults d (changed_by_put net faults manifest d)

  -- `Delete` up to the write: nothing is changed where nothing is about the host.
  unfoldable pub changed_by_delete :
      Faults → Text → Directory Body → Result FleetError (Option StoreFile)
  unfolding require_normalized read mentions without_host
  changed_by_delete faults id d = do
    unless (faults.context called)
    require_normalized id
    unless (faults.context locked)
    file ← read faults d
    ok (if mentions id file then some (without_host id file) else none)

  unfoldable pub delete : Faults → Text → Directory Body → Result FleetError Unit × Directory Body
  unfolding changed_by_delete write_changed
  delete faults id d = write_changed faults d (changed_by_delete faults id d)

  unfoldable pub state : Faults → Directory Body → Result FleetError FleetState
  unfolding read build_fleet_state
  state faults d = do
    unless (faults.context called)
    file ← read faults d
    unless (faults.context grouping)
    build_fleet_state json.fleet_state_version file

-- The calls that change the store.
pub data Op : Type 0 where
  put_op : Faults → Manifest → Op
  delete_op : Faults → Text → Op

module _ {Body : Type 0} (json : Json Body) (net : NetUrl) where
  unfoldable pub apply : Op → Directory Body → Result FleetError Unit × Directory Body
  unfolding put delete
  apply (put_op faults manifest) d = put json net faults manifest d
  apply (delete_op faults id) d = delete json faults id d

  -- What the calls return, and the directory behind them.
  unfoldable pub run : List Op → Directory Body → List (Result FleetError Unit) × Directory Body
  unfolding apply
  run [] d = ([], d)
  run (op ∷ ops) d =
      let first = apply op d in let rest = run ops first.1 in (first.0 ∷ rest.0, rest.1)
