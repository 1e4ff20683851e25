-- ===== src/Locking/Answered.antt =====
-- Calls of `acquire` of backend/src/core/locking/booking-lock.service.ts in which no command throws.
use kapis_receptionist.Prelude.{ℕ, ◌≡◌, refl, ◌≢◌, true, List, [], ◌∷◌}
use kapis_receptionist.Prelude.Action.{Result, ok, err}
use kapis_receptionist.Locking.{
  held_by_another, distinct, after_reply, acquire_loop, redis_error, LockError, release,
  AcquiredLock, acquire, sort_ids,
}
use kapis_receptionist.Locking.Taken.{SameKeys}
use kapis_receptionist.Locking.Keyspace.{SetReply, Redis, stored, refused, failed}
use kapis_receptionist.Locking.Acquire.{AllOrNothing, acquire-AllOrNothing}

module _ {K : Type 0} ⦃r : Redis K⦄ (up : (k : K) → r.runs k ≡ true) (token : ℕ → ℕ)
    (tenant : ℕ) where
  abbrev IsAnswered : Result LockError (List AcquiredLock) × K → Type 0
  IsAnswered (ok ls, k) = Unit {0}
  IsAnswered (err (held_by_another e), k) = Unit {0}
  IsAnswered (err redis_error, k) = ⊥

  after_reply-IsAnswered :
      (id : ℕ) (acquired : List AcquiredLock) (reply : SetReply) (k : K)
      (o : Result LockError (List AcquiredLock) × K)
      → reply ≢ failed
      → IsAnswered o
      → IsAnswered (after_reply id acquired reply k o)
  after_reply-IsAnswered id acquired stored k o ne h = h
  after_reply-IsAnswered id acquired refused k o ne h = tt
  after_reply-IsAnswered id acquired failed k o ne h = absurd (ne refl)

  acquire_loop-IsAnswered :
      ((t e v : ℕ) (k : K) → (r.set_nx t e v k).0 ≢ failed)
      → (ids : List ℕ) (acquired : List AcquiredLock) (k : K)
      → IsAnswered (acquire_loop token tenant ids acquired k)
  unfolding acquire_loop
  acquire_loop-IsAnswered answers [] acquired k = tt
  acquire_loop-IsAnswered answers (id ∷ ids) acquired k =
      after_reply-IsAnswered id acquired _ _ _ (answers tenant id (token id) k)
        (acquire_loop-IsAnswered answers ids _ _)

  -- Where no command throws, the call has taken its locks or none.
  abbrev pub TakenOrNot : K → Result LockError (List AcquiredLock) × K → Type 0
  TakenOrNot before (ok ls, k) = SameKeys r (release ls k) before
  TakenOrNot before (err e, k) = SameKeys r k before

  taken_or_not :
      (before : K) (ids : List ℕ) (o : Result LockError (List AcquiredLock) × K)
      → IsAnswered o
      → AllOrNothing up token tenant before ids o
      → TakenOrNot before o
  taken_or_not before ids (ok ls, k) a (own, free, back) = back
  taken_or_not before ids (err (held_by_another e), k) a h = h
  taken_or_not before ids (err redis_error, k) a h = absurd a

  pub acquire-TakenOrNot :
      ((t e v : ℕ) (k : K) → (r.set_nx t e v k).0 ≢ failed)
      → (ids : List ℕ) (k : K) → TakenOrNot k (acquire token tenant ids k)
  unfolding acquire
  acquire-TakenOrNot answers ids k =
      taken_or_not k ids (acquire token tenant ids k)
        (acquire_loop-IsAnswered answers (sort_ids (distinct [] ids)) [] k)
        (acquire-AllOrNothing up token tenant ids k)
