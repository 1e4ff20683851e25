-- ===== src/Appointments/Locks.antt =====
-- `withEmployeeLocks` of backend/src/modules/appointments/application/appointments.service.ts.
use kapis_receptionist.Prelude.{ℕ, Bool, not, some, List, [], ◌∷◌, map}
use kapis_receptionist.Availability.{is_window_available}
use kapis_receptionist.Prelude.Action.{◌>>=◌, Result, ok, gets, Action, pure, err, throw_if, ◌>>◌}
use kapis_receptionist.Locking.{
  release, AcquiredLock, distinct, held_by_another, acquire, redis_error, LockError,
}
use kapis_receptionist.Appointments.World.{
  BookingError, redis_unavailable, World, slot_no_longer_available,
}
use kapis_receptionist.Locking.Keyspace.{Redis}
use kapis_receptionist.Appointments.Repository.{Booking}
use kapis_receptionist.Appointments.Tables.{LineInput}
use kapis_receptionist.Rows.{Env}

-- A `try` whose `finally` only changes the state.
unfoldable pub finally : {S E A : Type 0} → Action S E A → (S → S) → Action S E A
finally m f s = ((m s).0, f (m s).1)

-- `BookingLockAcquisitionError` becomes the exception of the API, with its employee.
abbrev pub lock_result : {A : Type 0} → Result LockError A → Result BookingError A
lock_result (ok a) = ok a
lock_result (err (held_by_another e)) = err (slot_no_longer_available (some e))
lock_result (err redis_error) = err redis_unavailable

-- What `isWindowAvailable` answers for a line.
abbrev pub is_line_available : {K : Type 0} → World K → ℕ → LineInput → Bool
is_line_available w tenant l =
    is_window_available w.directory w.lines tenant l.employee_id l.start_time l.end_time
      l.buffer_minutes_snapshot

unfoldable pub check_windows : {K : Type 0} → ℕ → List LineInput → Booking K (Unit {0})
unfolding ◌>>=◌
check_windows tenant [] = pure tt
check_windows tenant (l ∷ ls) = do
  available ← gets (λ w. is_line_available w tenant l)
  throw_if (not available) (slot_no_longer_available (some l.employee_id))
  check_windows tenant ls

module _ {K : Type 0} ⦃r : Redis K⦄ where
  unfoldable pub acquire_locks : Env → ℕ → List LineInput → Booking K (List AcquiredLock)
  unfolding acquire distinct
  acquire_locks env tenant lines w =
      let (result, k) =
        acquire env.token tenant (distinct [] (map (λ l. l.employee_id) lines)) w.redis in
      (lock_result result, record w { redis = k })

  abbrev pub release_locks : List AcquiredLock → World K → World K
  release_locks locks w = record w { redis = release locks w.redis }

  unfoldable pub with_employee_locks :
      {A : Type 0} → Env → ℕ → List LineInput → Booking K A → Booking K A
  unfolding acquire_locks check_windows finally release ◌>>=◌
  with_employee_locks env tenant lines work = do
    locks ← acquire_locks env tenant lines
    finally (check_windows tenant lines >> work) (release_locks locks)
