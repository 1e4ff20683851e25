-- ===== src/Prelude/Lists.antt =====
-- The array methods that the program uses, over the native numbers, and predicates on lists.
use Prim.Native.Nat.{ℕ, zero, suc, ◌+◌}
use mathlib.Core.Path.{◌≡◌, refl, ap, sym, subst}
use mathlib.Core.Bool.{Bool, true, false, ◌||◌}
use mathlib.Core.Logic.{◌⊎◌, inl, inr}
use mathlib.Core.Option.{Option, none, some}
use mathlib.Core.List.{List, [], ◌∷◌, ◌++◌, map}
use native.Mathlib.Omega.{arith}
use kapis_receptionist.Prelude.Tests.{◌==◌, if◌then◌else◌, Bool-cases}

module _ {ℓ} {A : Type ℓ} where
  abbrev pub length : List A → ℕ
  length [] = 0
  length (x ∷ xs) = suc (length xs)

  -- `xs.some(p)`
  unfoldable pub any : (A → Bool) → List A → Bool
  any p [] = false
  any p (x ∷ xs) = p x || any p xs

  -- `xs.filter(p)`
  unfoldable pub keep : (A → Bool) → List A → List A
  keep p [] = []
  keep p (x ∷ xs) = if p x then x ∷ keep p xs else keep p xs

  -- `xs.find(p)`
  unfoldable pub find : (A → Bool) → List A → Option A
  find p [] = none
  find p (x ∷ xs) = if p x then some x else find p xs

  -- `new Map(xs.map(x => [key(x), x])).get(k)`: of several matches the last one counts.
  unfoldable pub find_last : (A → Bool) → List A → Option A → Option A
  find_last p [] found = found
  find_last p (x ∷ xs) found = find_last p xs (if p x then some x else found)

  -- The last element, or the given one.
  unfoldable pub last_or : A → List A → A
  last_or d [] = d
  last_or d (x ∷ xs) = last_or x xs

  -- Every element that the test picks is replaced.
  unfoldable pub update_where : (A → Bool) → (A → A) → List A → List A
  update_where p f [] = []
  update_where p f (x ∷ xs) = (if p x then f x else x) ∷ update_where p f xs

  unfoldable pub take : ℕ → List A → List A
  take zero xs = []
  take (suc n) [] = []
  take (suc n) (x ∷ xs) = x ∷ take n xs

  pub length-append : (xs ys : List A) → length (xs ++ ys) ≡ length xs + length ys
  length-append [] ys = omega arith
  length-append (x ∷ xs) ys = omega (arith, length-append xs ys)

module _ {A : Type 0} where
  -- Membership as data, which clauses can match.
  abbrev pub In : A → List A → Type 0
  In a [] = ⊥
  In a (x ∷ xs) = (a ≡ x) ⊎ In a xs

module _ {ℓ κ} {A : Type ℓ} (P : A → Type κ) where
  abbrev pub All : List A → Type κ
  All [] = Unit
  All (x ∷ xs) = P x × All xs

module _ {ℓ κ} {A : Type ℓ} (P : A → Type κ) where
  pub All-append : (xs ys : List A) → All P xs → All P ys → All P (xs ++ ys)
  All-append [] ys h k = k
  All-append (x ∷ xs) ys (p, h) k = (p, All-append xs ys h k)

module _ {A : Type 0} where
  pub In-append : (a : A) (xs ys : List A) → In a xs ⊎ In a ys → In a (xs ++ ys)
  In-append a [] ys (inl h) = absurd h
  In-append a [] ys (inr h) = h
  In-append a (x ∷ xs) ys (inl (inl e)) = inl e
  In-append a (x ∷ xs) ys (inl (inr h)) = inr (In-append a xs ys (inl h))
  In-append a (x ∷ xs) ys (inr h) = inr (In-append a xs ys (inr h))

  pub append-In : (a : A) (xs ys : List A) → In a (xs ++ ys) → In a xs ⊎ In a ys
  append-In a [] ys h = inr h
  append-In a (x ∷ xs) ys (inl e) = inl (inl e)
  append-In a (x ∷ xs) ys (inr h) = ground (arith, append-In a xs ys h)

  pub In-keep : (p : A → Bool) (a : A) (xs : List A) → In a xs → p a ≡ true → In a (keep p xs)
  unfolding keep
  In-keep p a [] h e = h
  In-keep p a (x ∷ xs) (inl same) e = rw (← same, e) (inl refl)
  In-keep p a (x ∷ xs) (inr h) e = ground (arith, In-keep p a xs h e)

  pub keep-In : (p : A → Bool) (a : A) (xs : List A) → In a (keep p xs) → In a xs × (p a ≡ true)
  unfolding keep
  keep-In p a [] h = absurd h
  keep-In p a (x ∷ xs) h = ground (arith, keep-In p a xs)

  pub In-any : (p : A → Bool) (a : A) (xs : List A) → In a xs → p a ≡ true → any p xs ≡ true
  unfolding any
  In-any p a [] h e = absurd h
  In-any p a (x ∷ xs) (inl same) e = rw (← same, e) refl
  In-any p a (x ∷ xs) (inr h) e = ground (arith, In-any p a xs h e)

  pub any-In : (p : A → Bool) (xs : List A) → any p xs ≡ true → (a : A) × In a xs × (p a ≡ true)
  unfolding any
  any-In p [] h = cc
  any-In p (x ∷ xs) h = elim (Bool-cases (p x)) [
    | inl e ↦ (x, inl refl, e)
    | inr e ↦ let (a, m, h') = any-In p xs (ground arith) in (a, inr m, h')
  ]

  pub find-In : (p : A → Bool) (xs : List A) {a : A} → find p xs ≡ some a → In a xs × (p a ≡ true)
  unfolding find
  find-In p [] h = cc
  find-In p (x ∷ xs) {a} h = ground (arith, find-In p xs {a = a})

  pub find-update_where :
      (p q : A → Bool) (f : A → A)
      → ((x : A) → p (f x) ≡ p x)
      → (xs : List A) {a : A} → find p xs ≡ some a
      → find p (update_where q f xs) ≡ some (if q a then f a else a)
  unfolding find update_where
  find-update_where p q f same [] h = cc
  find-update_where p q f same (x ∷ xs) {a} h =
      ground (arith, same x, find-update_where p q f same xs {a = a})

  -- The element that a test finds, after an update of all those that pass the test.
  pub find-updated :
      (p : A → Bool) (f : A → A)
      → ((x : A) → p (f x) ≡ p x)
      → (xs : List A) {a : A} → find p xs ≡ some a
      → find p (update_where p f xs) ≡ some (f a)
  unfolding find update_where
  find-updated p f same [] h = cc
  find-updated p f same (x ∷ xs) {a} h = ground (arith, same x, find-updated p f same xs {a = a})

  pub update_where-twice :
      (p : A → Bool) (f g : A → A)
      → ((x : A) → p (f x) ≡ p x)
      → ((x : A) → g (f x) ≡ f x)
      → (xs : List A) → update_where p g (update_where p f xs) ≡ update_where p f xs
  unfolding update_where
  update_where-twice p f g same again [] = refl
  update_where-twice p f g same again (x ∷ xs) = elim (Bool-cases (p x)) [
    | inl e ↦ rw (e, same x, e, again x, update_where-twice p f g same again xs) refl
    | inr e ↦ rw (e, e, update_where-twice p f g same again xs) refl
  ]

  pub find-keep :
      (p q : A → Bool) (xs : List A) {a : A}
      → find p xs ≡ some a
      → q a ≡ true
      → find p (keep q xs) ≡ some a
  unfolding find keep
  find-keep p q [] h e = cc
  find-keep p q (x ∷ xs) {a} h e = ground (arith, find-keep p q xs {a = a})

  pub take-In : (n : ℕ) (a : A) (xs : List A) → In a (take n xs) → In a xs
  unfolding take
  take-In zero a xs h = absurd h
  take-In (suc n) a [] h = h
  take-In (suc n) a (x ∷ xs) h = ground (arith, take-In n a xs)

module _ {A B : Type 0} where
  pub map-In : (f : A → B) (b : B) (xs : List A) → In b (map f xs) → (a : A) × In a xs × (b ≡ f a)
  map-In f b [] h = absurd h
  map-In f b (x ∷ xs) (inl e) = (x, inl refl, e)
  map-In f b (x ∷ xs) (inr h) = let (a, m, e) = map-In f b xs h in (a, inr m, e)

  pub In-map : (f : A → B) (a : A) (xs : List A) → In a xs → In (f a) (map f xs)
  In-map f a [] h = absurd h
  In-map f a (x ∷ xs) (inl e) = inl (ap f e)
  In-map f a (x ∷ xs) (inr h) = inr (In-map f a xs h)

module _ {ℓ} {A : Type 0} (P : A → Type ℓ) where
  pub All-In : (xs : List A) (a : A) → All P xs → In a xs → P a
  All-In [] a h m = absurd m
  All-In (x ∷ xs) a (p, h) (inl e) = subst P (sym e) p
  All-In (x ∷ xs) a (p, h) (inr m) = All-In xs a h m

  pub All-keep : (p : A → Bool) (xs : List A) → All P xs → All P (keep p xs)
  unfolding keep
  All-keep p [] h = h
  All-keep p (x ∷ xs) (px, h) = elim (Bool-cases (p x)) [
    | inl e ↦ rw (e, keep) (px, All-keep p xs h)
    | inr e ↦ rw (e, keep) (All-keep p xs h)
  ]

-- `xs.includes(k)` on keys.
unfoldable pub includes : ℕ → List ℕ → Bool
includes k [] = false
includes k (x ∷ xs) = x == k || includes k xs
