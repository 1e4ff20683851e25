-- ===== src/Appointments/LockRelease.antt =====
-- The booking locks, through `withEmployeeLocks` and runs of requests:
-- backend/src/modules/appointments/application/appointments.service.ts.
use kapis_receptionist.Prelude.Action.{Keeps, ◌>>◌, Keeps-bind, Result, err, continue, ok}
use kapis_receptionist.Prelude.{ℕ, ◌≡◌, refl, true, List, [], map, ◌∙◌, ◌≢◌}
use kapis_receptionist.Locking.{distinct, held_by_another, redis_error, LockError, AcquiredLock}
use kapis_receptionist.Appointments.Locks.{
  with_employee_locks, check_windows, acquire_locks, finally, release_locks, lock_result,
}
use kapis_receptionist.Appointments.Requests.{serve_all-keeps, serve_all, Request}
use kapis_receptionist.Locking.Keyspace.{Redis, failed}
use kapis_receptionist.Appointments.Tables.{LineInput}
use kapis_receptionist.Appointments.Repository.{Booking}
use kapis_receptionist.Appointments.Kept.{
  Keeps-check_windows, Keeps-insert_booking, Keeps-move_booking,
}
use kapis_receptionist.Appointments.World.{World}
use kapis_receptionist.Locking.Taken.{SameKeys}
use kapis_receptionist.Appointments.Writes.{Stable}
use kapis_receptionist.Rows.{Env}
use kapis_receptionist.Appointments.Service.{move_booking, insert_booking}
use kapis_receptionist.Locking.Answered.{acquire-TakenOrNot, TakenOrNot}

module _ {K : Type 0} where
  Redis-Stable : (k : K) → Stable (λ w. w.redis ≡ k)
  Redis-Stable k = record {
    appointments = λ w rows h. h;
    insert = λ w l e h. h;
    unblock = λ w id h. h;
    history = λ w rows h. h;
    audit = λ w rows h. h;
    billing = λ w b h. h;
  }

  SameKeys-Stable : (r : Redis K) (k : K) → Stable (λ w. SameKeys r w.redis k)
  SameKeys-Stable r k = record {
    appointments = λ w rows h. h;
    insert = λ w l e h. h;
    unblock = λ w id h. h;
    history = λ w rows h. h;
    audit = λ w rows h. h;
    billing = λ w b h. h;
  }

module _ {K : Type 0} ⦃r : Redis K⦄ (up : (k : K) → r.runs k ≡ true)
    (answers : (t e v : ℕ) (k : K) → (r.set_nx t e v k).0 ≢ failed) where
  -- After a call of `acquire` that ended as `o`.
  released :
      {A : Type 0} (token : ℕ → ℕ) (tenant : ℕ) (work : Booking K A)
      → ((k : K) → Keeps (λ w. w.redis ≡ k) work)
      → (w : World K) (o : Result LockError (List AcquiredLock) × K)
      → TakenOrNot up token tenant w.redis o
      → SameKeys r
          (continue
            (λ locks. finally work (release_locks locks))
            (lock_result o.0, record w { redis = o.1 })).1.redis
          w.redis
  unfolding finally
  released token tenant work inside w (err (held_by_another e), k) h = h
  released token tenant work inside w (err redis_error, k) h = h
  released token tenant work inside w (ok ls, k) back =
      rw ((inside k).at (record w { redis = k }) refl) back

  -- If Redis runs the scripts it is sent, no SET throws and the work does not touch the keyspace, every key has
  -- after `withEmployeeLocks` the value that it had before, whether it returns or throws.
  pub with_employee_locks_restores :
      {A : Type 0} (env : Env) (tenant : ℕ) (ls : List LineInput) (work : Booking K A)
      → ((k : K) → Keeps (λ w. w.redis ≡ k) work)
      → (w : World K) → SameKeys r (with_employee_locks env tenant ls work w).1.redis w.redis
  unfolding with_employee_locks acquire_locks
  with_employee_locks_restores env tenant ls work inside w =
      released env.token tenant (check_windows tenant ls >> work)
        (λ k. Keeps-bind _ _ (Keeps-check_windows tenant ls) λ u. inside k) w _
        (acquire-TakenOrNot up env.token tenant answers (distinct [] (map (λ l. l.employee_id) ls))
          w.redis)

  -- If Redis runs the scripts it is sent and no SET throws, no request leaves a lock behind or takes another's away:
  -- after any run of requests every key has the value that it had before.
  pub locks_restored : (qs : List Request) (w : World K) → SameKeys r (serve_all qs w).redis w.redis
  locks_restored qs w =
      serve_all-keeps (SameKeys-Stable r w.redis)
        (λ env tenant author q ls. record {
          at = λ v h u f.
              with_employee_locks_restores env tenant ls (insert_booking env tenant author q ls)
                (λ k. Keeps-insert_booking (Redis-Stable k) env tenant author q ls) v u f
              ∙ h u f;
        })
        (λ env tenant id author a ls. record {
          at = λ v h u f.
              with_employee_locks_restores env tenant ls (move_booking env tenant id author a ls)
                (λ k. Keeps-move_booking (Redis-Stable k) env tenant id author a ls) v u f
              ∙ h u f;
        })
        qs w (λ u f. refl)
