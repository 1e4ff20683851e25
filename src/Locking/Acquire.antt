-- ===== src/Locking/Acquire.antt =====
-- The keyspace after `acquire` of backend/src/core/locking/booking-lock.service.ts, by how it ended.
use kapis_receptionist.Prelude.{
  ℕ, ◌≡◌, refl, inl, inr, ◌&&◌, ◌||◌, List, [], ◌∷◌, ◌++◌, map, arith, ◌==◌, Bool-cases, includes,
  sym, ◌∙◌, true, subst, none, some, if◌then◌else◌, All, ◌⊎◌,
}
use kapis_receptionist.Locking.{
  AcquiredLock, sort_ids, insert_id, distinct, after_reply, LockError, acquire_loop, release,
  acquire, held_by_another, redis_error,
}
use kapis_receptionist.Locking.Taken.{
  covers, release-Taken, Taken-same, SameKeys, Taken-stored, Taken, Taken-none, release-SameKeys,
}
use kapis_receptionist.Prelude.Action.{ok, Result, err}
use kapis_receptionist.Locking.Keyspace.{
  SetReply, Redis, failed, refused, stored, IsStored, is_employee_key,
}
use mathlib.Core.List.{append_assoc, append-nil}

abbrev pub lock_of : (ℕ → ℕ) → ℕ → ℕ → AcquiredLock
lock_of token tenant id = record { tenant_id = tenant; employee_id = id; token = token id }

covers-append_all :
    (ls ms : List AcquiredLock) (u f : ℕ) → covers (ls ++ ms) u f ≡ (covers ls u f || covers ms u f)
covers-append_all [] ms u f = refl
covers-append_all (l ∷ ls) ms u f = ground (arith, covers-append_all ls ms u f)

covers-map :
    (token : ℕ → ℕ) (tenant : ℕ) (ids : List ℕ) (u f : ℕ)
    → covers (map (lock_of token tenant) ids) u f ≡ (tenant == u && includes f ids)
unfolding includes
covers-map token tenant [] u f = ground arith
covers-map token tenant (id ∷ ids) u f = ground (arith, covers-map token tenant ids u f)

includes-insert_id :
    (f x : ℕ) (xs : List ℕ) → includes f (insert_id x xs) ≡ (x == f || includes f xs)
unfolding includes insert_id
includes-insert_id f x [] = refl
includes-insert_id f x (y ∷ ys) = ground (arith, includes-insert_id f x ys)

includes-sort_ids : (f : ℕ) (xs : List ℕ) → includes f (sort_ids xs) ≡ includes f xs
unfolding includes sort_ids
includes-sort_ids f [] = refl
includes-sort_ids f (x ∷ xs) =
    ground (arith, includes-insert_id f x (sort_ids xs), includes-sort_ids f xs)

includes-distinct :
    (f : ℕ) (seen xs : List ℕ)
    → (includes f seen || includes f (distinct seen xs)) ≡ (includes f seen || includes f xs)
unfolding includes distinct
includes-distinct f seen [] = refl
includes-distinct f seen (x ∷ xs) = elim (Bool-cases (includes x seen)) [
  | inl old ↦ rw (old, distinct) (ground (arith, includes-distinct f seen xs))
  | inr new ↦ rw (new, distinct) (ground (arith, includes-distinct f (x ∷ seen) xs))
]

-- `new Set(ids)`, sorted, has the same identifiers.
includes-sorted : (f : ℕ) (ids : List ℕ) → includes f (sort_ids (distinct [] ids)) ≡ includes f ids
unfolding includes
includes-sorted f ids = includes-sort_ids f (distinct [] ids) ∙ includes-distinct f [] ids

includes-head : (x : ℕ) (xs : List ℕ) → includes x (x ∷ xs) ≡ true
unfolding includes
includes-head x xs = ground arith

includes-tail : (x y : ℕ) (xs : List ℕ) → includes x xs ≡ true → includes x (y ∷ xs) ≡ true
unfolding includes
includes-tail x y xs h = ground arith

module _ {K : Type 0} ⦃r : Redis K⦄ (up : (k : K) → r.runs k ≡ true) (token : ℕ → ℕ)
    (tenant : ℕ) where
  -- From `before`, the loop ends with the locks of `acquired` and of `ids`, or with none, or with the
  -- one that a command that threw has stored.
  abbrev Ends : K → List ℕ → List AcquiredLock → Result LockError (List AcquiredLock) × K → Type 0
  Ends before ids acquired (ok ls, k) =
      (ls ≡ acquired ++ map (lock_of token tenant) ids) × Taken before ls k
  Ends before ids acquired (err (held_by_another e), k) = SameKeys r k before
  Ends before ids acquired (err redis_error, k) =
      SameKeys r k before
      ⊎ ((id : ℕ) × (includes id ids ≡ true) × Taken before (lock_of token tenant id ∷ []) k)

  Ends-cons :
      (before : K) (id : ℕ) (ids : List ℕ) (acquired : List AcquiredLock)
      (o : Result LockError (List AcquiredLock) × K)
      → Ends before ids (acquired ++ lock_of token tenant id ∷ []) o
      → Ends before (id ∷ ids) acquired o
  Ends-cons before id ids acquired (ok ls, k) (e, v) = (e ∙ append_assoc acquired _ _, v)
  Ends-cons before id ids acquired (err (held_by_another e), k) h = h
  Ends-cons before id ids acquired (err redis_error, k) (inl h) = inl h
  Ends-cons before id ids acquired (err redis_error, k) (inr (x, m, v)) =
      inr (x, includes-tail x id ids m, v)

  Ends-by_reply :
      (before k : K) (id : ℕ) (ids : List ℕ) (acquired : List AcquiredLock)
      → Taken before acquired k
      → (reply : SetReply) → (r.set_nx tenant id (token id) k).0 ≡ reply
      → ((reply ≡ stored)
          → Ends before (id ∷ ids) acquired (
              acquire_loop token tenant ids
                (acquired ++ lock_of token tenant id ∷ [])
                (r.set_nx tenant id (token id) k).1))
      → Ends before (id ∷ ids) acquired (
          after_reply id acquired reply (r.set_nx tenant id (token id) k).1 (
            acquire_loop token tenant ids
              (acquired ++ lock_of token tenant id ∷ [])
              (r.set_nx tenant id (token id) k).1))
  Ends-by_reply before k id ids acquired v stored e next = next refl
  Ends-by_reply before k id ids acquired v refused e next =
      release-SameKeys up before acquired _
        (Taken-same before k _ acquired (r.get-refused tenant id (token id) k e) v)
  Ends-by_reply before k id ids acquired v failed e next =
      elim (r.get-failed tenant id (token id) k e) [
        | inl same ↦
            inl (release-SameKeys up before acquired _ (Taken-same before k _ acquired same v))
        | inr ran ↦ inr (
          id,
          includes-head id ids,
          release-Taken up before acquired (lock_of token tenant id ∷ []) _
              (Taken-stored tenant id (token id) before k _ acquired ran v),
        )
      ]

  acquire_loop-Ends :
      (before : K) (ids : List ℕ) (acquired : List AcquiredLock) (k : K)
      → Taken before acquired k
      → Ends before ids acquired (acquire_loop token tenant ids acquired k)
  unfolding acquire_loop
  acquire_loop-Ends before [] acquired k v = (sym (append-nil acquired), v)
  acquire_loop-Ends before (id ∷ ids) acquired k v =
      Ends-by_reply before k id ids acquired v (r.set_nx tenant id (token id) k).0 refl λ s.
        Ends-cons before id ids acquired _ (
          acquire_loop-Ends before ids (acquired ++ lock_of token tenant id ∷ [])
            (r.set_nx tenant id (token id) k).1
            (Taken-stored tenant id (token id) before k _ acquired
              (r.get-stored tenant id (token id) k s) v))

  owned_key :
      (k : K) (ids : List ℕ) (u f : ℕ)
      → All (λ l. r.get l.tenant_id l.employee_id k ≡ some l.token) (map (lock_of token tenant) ids)
      → (tenant == u && includes f ids) ≡ true
      → r.get u f k ≡ some (token f)
  unfolding includes
  owned_key k [] u f h e = ground arith
  owned_key k (id ∷ ids) u f h e = elim (Bool-cases (id == f)) [
    | inl here ↦
        let same : id ≡ f = ground arith in
        let same_tenant : tenant ≡ u = ground arith in rw (← same, ← same_tenant) h.0
    | inr there ↦ owned_key k ids u f h.1 (ground arith)
  ]

  free_key :
      (k : K) (ids : List ℕ) (f : ℕ)
      → All (λ l. r.get l.tenant_id l.employee_id k ≡ none) (map (lock_of token tenant) ids)
      → includes f ids ≡ true
      → r.get tenant f k ≡ none
  unfolding includes
  free_key k [] f h e = cc
  free_key k (id ∷ ids) f h e = elim (Bool-cases (id == f)) [
    | inl here ↦ let same : id ≡ f = ground arith in rw (← same) h.0
    | inr there ↦ free_key k ids f h.1 (ground arith)
  ]

  -- What `acquire` has done to the keyspace `before`, by how it ended.
  abbrev pub AllOrNothing : K → List ℕ → Result LockError (List AcquiredLock) × K → Type 0
  AllOrNothing before ids (ok ls, k) =
      ((u f : ℕ)
        → r.get u f k
          ≡ (if tenant == u && includes f ids then some (token f) else r.get u f before))
      × ((f : ℕ) → r.get tenant f before ≡ (if includes f ids then none else r.get tenant f before))
      × SameKeys r (release ls k) before
  AllOrNothing before ids (err (held_by_another e), k) = SameKeys r k before
  AllOrNothing before ids (err redis_error, k) =
      SameKeys r k before
      ⊎ ((id : ℕ) × (includes id ids ≡ true)
          × IsStored tenant id (token id) (λ u f. r.get u f before) (λ u f. r.get u f k))

  Taken-IsStored :
      (before k : K) (id : ℕ)
      → Taken before (lock_of token tenant id ∷ []) k
      → IsStored tenant id (token id) (λ u f. r.get u f before) (λ u f. r.get u f k)
  Taken-IsStored before k id v = record {
    was_free = v.was_free.0;
    stored_only = λ u f. elim (Bool-cases (is_employee_key tenant id u f)) [
      | inl e ↦ rw e (ground (arith, v.own.0))
      | inr e ↦ rw e (v.others u f (rw e refl))
    ];
  }

  all_or_nothing :
      (before : K) (ids : List ℕ) (o : Result LockError (List AcquiredLock) × K)
      → Ends before (sort_ids (distinct [] ids)) [] o
      → AllOrNothing before ids o
  all_or_nothing before ids (err (held_by_another e), k) h = h
  all_or_nothing before ids (err redis_error, k) (inl h) = inl h
  all_or_nothing before ids (err redis_error, k) (inr (id, m, v)) =
      inr (id, rw (← includes-sorted id ids) m, Taken-IsStored before k id v)
  all_or_nothing before ids (ok ls, k) (same, v) =
      let sorted = sort_ids (distinct [] ids) in
      (
        λ u f. elim (Bool-cases (tenant == u && includes f ids)) [
          | inl e ↦ rw e (owned_key k sorted u f (subst (All _) same v.own) (rw includes-sorted e))
          | inr e ↦ rw e (v.others u f (rw (same, covers-map, includes-sorted) e))
        ],
        λ f. elim (Bool-cases (includes f ids)) [
          | inl e ↦
              rw e (free_key before sorted f (subst (All _) same v.was_free) (rw includes-sorted e))
          | inr e ↦ rw e
        ],
        release-SameKeys up before ls k v,
      )

  -- If Redis runs the scripts it is sent, a call of `acquire` that returns has stored its token for
  -- every employee asked for, each of whom was free, and nothing else, and `release` of the result
  -- restores the keyspace. A call that finds an employee locked leaves every key as it was. A call in
  -- which a command throws does so too, unless that command has run all the same: then its token stays
  -- for its employee, one of those asked for, who was free, and no other key has changed.
  pub acquire-AllOrNothing :
      (ids : List ℕ) (k : K) → AllOrNothing k ids (acquire token tenant ids k)
  unfolding acquire
  acquire-AllOrNothing ids k =
      all_or_nothing k ids _ (acquire_loop-Ends k (sort_ids (distinct [] ids)) [] k (Taken-none k))
