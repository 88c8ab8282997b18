-- ===== src/Fleet/Store/Failing.antt =====
-- What a call that fails leaves behind.
use kwt.Common.{◌≡◌, refl, ap, ◌+◌, ◌-◌, false, Option, none, some, arith, Result, ok, err, ◌>>◌}
use kwt.Url.Repository.{NetUrl}
use kwt.Fleet.Types.{StoreFile, FleetError}
use kwt.Fleet.Store.{
  Json, Directory, Faults, sorted_file, fill_temp, finish_temp, before_temp, write_body, write,
  write_changed, changed_by_put, put, changed_by_delete, delete, Op, put_op, delete_op, apply,
  unless, writing,
}
use kwt.Fleet.Store.Writing.{IsFilled, fill_temp-IsFilled}

module _ {Body : Type 0} (json : Json Body) where
  finish_temp-same :
      (faults : Faults) (body : Body) (d : Directory Body)
      (r : Result FleetError Unit × Directory Body) (x : FleetError)
      → faults.remove_fails ≡ false
      → IsFilled json body (record d { temporary = d.temporary + 1 }) r
      → (finish_temp json faults r).0 ≡ err x
      → (finish_temp json faults r).1 ≡ d
  unfolding finish_temp
  finish_temp-same faults body d (ok _, e) x k f h = ground arith
  finish_temp-same faults body d (err y, e) x k f h =
      let back : d.temporary + 1 - 1 ≡ d.temporary = omega arith in
      rw (k, f) (ap (λ n. record d { temporary = n }) back)

  write_body-same :
      (faults : Faults) (d : Directory Body) (r : Result FleetError Body) (e : FleetError)
      → faults.remove_fails ≡ false
      → (write_body json faults d r).0 ≡ err e
      → (write_body json faults d r).1 ≡ d
  unfolding write_body
  write_body-same faults d (err x) e k h = refl
  write_body-same faults d (ok body) e k h =
      let opened : Directory Body = record d { temporary = d.temporary + 1 } in
      finish_temp-same faults body d (fill_temp json faults body opened) e k
        (fill_temp-IsFilled json faults body opened) h

  write_changed-same :
      (faults : Faults) (d : Directory Body) (r : Result FleetError (Option StoreFile))
      (e : FleetError)
      → faults.remove_fails ≡ false
      → (write_changed json faults d r).0 ≡ err e
      → (write_changed json faults d r).1 ≡ d
  unfolding write_changed write
  write_changed-same faults d (err x) e k h = refl
  write_changed-same faults d (ok none) e k h = refl
  write_changed-same faults d (ok (some file)) e k h =
      write_body-same faults d
        (unless (faults.context writing)
          >> before_temp json faults (json.marshal (sorted_file file)))
        e k h

  abbrev faults_of : Op → Faults
  faults_of (put_op faults m) = faults
  faults_of (delete_op faults id) = faults

  -- A call that fails, at whatever point, leaves the file and the files beside it as they were,
  -- where its temporary file can be removed.
  pub apply_failed :
      (net : NetUrl) (op : Op) (d : Directory Body) (e : FleetError)
      → (faults_of op).remove_fails ≡ false
      → (apply json net op d).0 ≡ err e
      → (apply json net op d).1 ≡ d
  unfolding apply put delete
  apply_failed net (put_op faults m) d e k h =
      write_changed-same faults d (changed_by_put json net faults m d) e k h
  apply_failed net (delete_op faults id) d e k h =
      write_changed-same faults d (changed_by_delete json faults id d) e k h
