-- ===== src/Locking.antt =====
-- backend/src/core/locking/booking-lock.service.ts: one Redis key per employee of a booking.
pub mod Keyspace
pub mod Taken
pub mod Acquire
pub mod Answered
use kapis_receptionist.Prelude.Action.{Result, ok, err}
use Keyspace.{Redis, SetReply, stored, refused, failed}
use kapis_receptionist.Prelude.{ℕ, List, [], ◌∷◌, ◌++◌, leb, if◌then◌else◌, is_key, includes}

pub record AcquiredLock : Type 0 where
  pub tenant_id : ℕ
  pub employee_id : ℕ  -- with the tenant, the key `lock:availability:{tenant}:{employee}`
  pub token : ℕ

pub data LockError : Type 0 where
  held_by_another : ℕ → LockError  -- `BookingLockAcquisitionError`
  redis_error : LockError

-- `new Set(ids)`, in order of first occurrence.
unfoldable pub distinct : List ℕ → List ℕ → List ℕ
unfolding includes
distinct seen [] = []
distinct seen (x ∷ xs) =
    let again = distinct seen xs in
    let first = x ∷ distinct (x ∷ seen) xs in if includes x seen then again else first

unfoldable pub insert_id : ℕ → List ℕ → List ℕ
insert_id x [] = x ∷ []
insert_id x (y ∷ ys) = if leb x y then x ∷ y ∷ ys else y ∷ insert_id x ys

-- `.sort()`; identifiers stand for strings in their order.
unfoldable pub sort_ids : List ℕ → List ℕ
unfolding insert_id
sort_ids [] = []
sort_ids (x ∷ xs) = insert_id x (sort_ids xs)

module _ {K : Type 0} ⦃r : Redis K⦄ where
  -- `UNLOCK_SCRIPT`, one atomic step of the server.
  unfoldable pub unlock_script : AcquiredLock → K → K
  unlock_script l k =
      if is_key (r.get l.tenant_id l.employee_id k) l.token
      then r.delete l.tenant_id l.employee_id k
      else k

  -- `release`: a script that the server does not run is only logged.
  unfoldable pub release : List AcquiredLock → K → K
  unfolding unlock_script
  release [] k = k
  release (l ∷ ls) k = release ls (if r.runs k then unlock_script l k else k)

  -- What follows a reply: the rest of the loop, or the `catch` of `acquire`.
  abbrev pub after_reply :
      ℕ
      → List AcquiredLock
      → SetReply
      → K
      → Result LockError (List AcquiredLock) × K
      → Result LockError (List AcquiredLock) × K
  after_reply employee acquired stored k rest = rest
  after_reply employee acquired refused k rest =
      (err (held_by_another employee), release acquired k)
  after_reply employee acquired failed k rest = (err redis_error, release acquired k)

  -- The loop of `acquire`; `token` gives the `randomUUID()` drawn for each key.
  unfoldable pub acquire_loop :
      (ℕ → ℕ) → ℕ → List ℕ → List AcquiredLock → K → Result LockError (List AcquiredLock) × K
  unfolding release
  acquire_loop token tenant [] acquired k = (ok acquired, k)
  acquire_loop token tenant (id ∷ ids) acquired k =
      let (reply, k') = r.set_nx tenant id (token id) k in
      let lock : AcquiredLock = record { tenant_id = tenant; employee_id = id; token = token id } in
      let rest = acquire_loop token tenant ids (acquired ++ lock ∷ []) k' in
      after_reply id acquired reply k' rest

  unfoldable pub acquire : (ℕ → ℕ) → ℕ → List ℕ → K → Result LockError (List AcquiredLock) × K
  unfolding acquire_loop distinct sort_ids
  acquire token tenant ids k = acquire_loop token tenant (sort_ids (distinct [] ids)) [] k
