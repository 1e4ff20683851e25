-- ===== src/Locking/Taken.antt =====
-- The locks that a call of backend/src/core/locking/booking-lock.service.ts holds, as the keyspace
-- shows them, and their release.
use mathlib.Core.List.{append-nil}
use kapis_receptionist.Locking.Keyspace.{is_employee_key, Redis, IsStored}
use kapis_receptionist.Prelude.{
  ℕ, ◌≡◌, refl, Bool, false, ◌||◌, none, some, List, [], ◌∷◌, ◌++◌, arith, All, ◌∙◌, true, is_key,
  All-append, sym, subst,
}
use kapis_receptionist.Locking.{AcquiredLock, unlock_script, release}

abbrev pub is_key_of : AcquiredLock → ℕ → ℕ → Bool
is_key_of l u f = is_employee_key l.tenant_id l.employee_id u f

abbrev pub covers : List AcquiredLock → ℕ → ℕ → Bool
covers [] u f = false
covers (l ∷ ls) u f = is_key_of l u f || covers ls u f

abbrev pub AreApart : List AcquiredLock → Type 0
AreApart [] = Unit {0}
AreApart (l ∷ ls) = (covers ls l.tenant_id l.employee_id ≡ false) × AreApart ls

covers-append :
    (ls : List AcquiredLock) (l : AcquiredLock) (u f : ℕ)
    → covers (ls ++ l ∷ []) u f ≡ (covers ls u f || is_key_of l u f)
covers-append [] l u f = ground arith
covers-append (m ∷ ls) l u f = ground (arith, covers-append ls l u f)

AreApart-append :
    (ls : List AcquiredLock) (l : AcquiredLock)
    → AreApart ls
    → covers ls l.tenant_id l.employee_id ≡ false
    → AreApart (ls ++ l ∷ [])
AreApart-append [] l a c = (refl, tt)
AreApart-append (m ∷ ls) l a c = (
  ground (arith, covers-append ls l m.tenant_id m.employee_id),
  AreApart-append ls l a.1 (ground arith),
)

-- Two keyspaces that hold the same.
abbrev pub SameKeys : {K : Type 0} → Redis K → K → K → Type 0
SameKeys r k k' = (u f : ℕ) → r.get u f k ≡ r.get u f k'

module _ {K : Type 0} ⦃r : Redis K⦄ where
  -- From `before`, exactly the locks `ls` have been taken.
  pub record Taken (before : K) (ls : List AcquiredLock) (k : K) : Type 0 where
    pub own : All (λ l. r.get l.tenant_id l.employee_id k ≡ some l.token) ls
    pub was_free : All (λ l. r.get l.tenant_id l.employee_id before ≡ none) ls
    pub others : (u f : ℕ) → covers ls u f ≡ false → r.get u f k ≡ r.get u f before
    pub apart : AreApart ls

  pub Taken-none : (k : K) → Taken k [] k
  Taken-none k = record { own = tt; was_free = tt; others = λ u f e. refl; apart = tt }

  own-stored :
      (t e token : ℕ) (k k' : K) (ls : List AcquiredLock)
      → IsStored t e token (λ u f. r.get u f k) (λ u f. r.get u f k')
      → All (λ l. r.get l.tenant_id l.employee_id k ≡ some l.token) ls
      → All (λ l. r.get l.tenant_id l.employee_id k' ≡ some l.token) (ls) × (covers ls t e ≡ false)
  own-stored t e token k k' [] h a = (tt, refl)
  own-stored t e token k k' (l ∷ ls) h (own, rest) =
      let (later, apart) = own-stored t e token k k' ls h rest in
      let apart_here : is_employee_key t e l.tenant_id l.employee_id ≡ false =
        ground (arith, h.was_free) in
      ((ground (arith, h.stored_only l.tenant_id l.employee_id), later), ground arith)

  pub Taken-stored :
      (t e token : ℕ) (before k k' : K) (ls : List AcquiredLock)
      → IsStored t e token (λ u f. r.get u f k) (λ u f. r.get u f k')
      → Taken before ls k
      → Taken before (ls ++ record { tenant_id = t; employee_id = e; token = token } ∷ []) k'
  Taken-stored t e token before k k' ls h v =
      let (own, apart) = own-stored t e token k k' ls h v.own in
      record {
        own = All-append _ ls _ own (ground (arith, h.stored_only t e), tt);
        was_free = All-append _ ls _ v.was_free (ground (arith, v.others t e, h.was_free), tt);
        others = λ u f c. ground (
          arith,
          covers-append ls (record { tenant_id = t; employee_id = e; token = token }) u f,
          h.stored_only u f,
          v.others u f,
        );
        apart = AreApart-append ls _ v.apart apart;
      }

  pub Taken-same :
      (before k k' : K) (ls : List AcquiredLock)
      → SameKeys r k' k
      → Taken before ls k
      → Taken before ls k'
  Taken-same before k k' ls same v = record {
    own = own_same ls v.own;
    was_free = v.was_free;
    others = λ u f c. same u f ∙ v.others u f c;
    apart = v.apart;
  }
    where
      own_same :
          (ls : List AcquiredLock)
          → All (λ l. r.get l.tenant_id l.employee_id k ≡ some l.token) ls
          → All (λ l. r.get l.tenant_id l.employee_id k' ≡ some l.token) ls
      own_same [] a = tt
      own_same (l ∷ ls) (p, a) = (same l.tenant_id l.employee_id ∙ p, own_same ls a)

  own-deleted :
      (t e : ℕ) (k : K) (ls : List AcquiredLock)
      → covers ls t e ≡ false
      → All (λ l. r.get l.tenant_id l.employee_id k ≡ some l.token) ls
      → All (λ l. r.get l.tenant_id l.employee_id (r.delete t e k) ≡ some l.token) ls
  own-deleted t e k [] c a = tt
  own-deleted t e k (l ∷ ls) c (p, a) = (
    ground (arith, r.get-delete t e l.tenant_id l.employee_id k),
    own-deleted t e k ls (ground arith) a,
  )

  Taken-deleted :
      (before k : K) (l : AcquiredLock) (ls : List AcquiredLock)
      → Taken before (l ∷ ls) k
      → Taken before ls (r.delete l.tenant_id l.employee_id k)
  Taken-deleted before k l ls v = record {
    own = own-deleted l.tenant_id l.employee_id k ls v.apart.0 v.own.1;
    was_free = v.was_free.1;
    others = λ u f c.
        ground (arith, r.get-delete l.tenant_id l.employee_id u f k, v.others u f, v.was_free.0);
    apart = v.apart.1;
  }

  -- The release of some of the locks leaves the others.
  pub release-Taken :
      ((k : K) → r.runs k ≡ true)
      → (before : K) (ls ms : List AcquiredLock) (k : K) → Taken before (ls ++ ms) k
      → Taken before ms (release ls k)
  unfolding release unlock_script
  release-Taken up before [] ms k v = v
  release-Taken up before (l ∷ ls) ms k v =
      let mine : is_key (r.get l.tenant_id l.employee_id k) l.token ≡ true =
        ground (arith, v.own.0) in
      rw (up k, mine)
        (release-Taken up before ls ms (r.delete l.tenant_id l.employee_id k)
          (Taken-deleted before k l (ls ++ ms) v))

  pub release-SameKeys :
      ((k : K) → r.runs k ≡ true)
      → (before : K) (ls : List AcquiredLock) (k : K) → Taken before ls k
      → SameKeys r (release ls k) before
  release-SameKeys up before ls k v u f =
      let whole : Taken before (ls ++ []) k =
        subst (λ ms. Taken before ms k) (sym (append-nil ls)) v in
      let rest = release-Taken up before ls [] k whole in rest.others u f refl
