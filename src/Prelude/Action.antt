-- ===== src/Prelude/Action.antt =====
-- A method of a service: it reads and writes a state, and returns or throws. What was written
-- before a throw stays written, so the state comes back in both cases.
use mathlib.Core.Path.{◌≡◌, refl}
use mathlib.Core.Bool.{Bool, true, false}
use mathlib.Core.Option.{Option, none, some}
use kapis_receptionist.Prelude.Tests.{if◌then◌else◌}

pub data Result (E A : Type 0) : Type 0 where
  ok : A → Result E A
  err : E → Result E A

pub ok-injective : {E A : Type 0} {x y : A} → ◌≡◌ {A = Result E A} (ok x) (ok y) → x ≡ y
ok-injective p = cc

abbrev pub Action : Type 0 → Type 0 → Type 0 → Type 0
Action S E A = S → Result E A × S

module _ {S E A : Type 0} where
  unfoldable pub pure : A → Action S E A
  pure a s = (ok a, s)

  unfoldable pub throw : E → Action S E A
  throw e s = (err e, s)

  unfoldable pub gets : (S → A) → Action S E A
  gets f s = (ok (f s), s)

  -- `if (!x) throw e`, with the value of `x`.
  abbrev pub or_throw : Option A → E → Action S E A
  or_throw none e = throw e
  or_throw (some a) e = pure a

  -- `prisma.$transaction(m)`: a throw inside undoes what `m` wrote.
  abbrev pub rollback : S → Result E A × S → Result E A × S
  rollback s (ok a, s') = (ok a, s')
  rollback s (err e, s') = (err e, s)

  unfoldable pub transaction : Action S E A → Action S E A
  transaction m s = rollback s (m s)

module _ {S E A : Type 0} where
  abbrev pub handle : (E → Action S E A) → Result E A × S → Result E A × S
  handle h (ok a, s) = (ok a, s)
  handle h (err e, s) = h e s

  -- `try { m } catch (e) { h(e) }`: what `m` wrote before it threw stays.
  unfoldable pub catch : Action S E A → (E → Action S E A) → Action S E A
  catch m h s = handle h (m s)

module _ {S E : Type 0} where
  unfoldable pub throw_if : Bool → E → Action S E (Unit {0})
  throw_if c e s = (if c then err e else ok tt, s)

  unfoldable pub modify : (S → S) → Action S E (Unit {0})
  modify f s = (ok tt, f s)

module _ {S E A B : Type 0} where
  abbrev pub continue : (A → Action S E B) → Result E A × S → Result E B × S
  continue f (ok a, s) = f a s
  continue f (err e, s) = (err e, s)

  infixl 10 ◌>>=◌ ◌>>◌
  -- Opening this opens `pure`, `throw`, `gets`, `throw_if` and `modify` too.
  unfoldable pub ◌>>=◌ : Action S E A → (A → Action S E B) → Action S E B
  unfolding pure throw gets throw_if modify
  ◌>>=◌ m f s = continue f (m s)

  abbrev pub ◌>>◌ : Action S E A → Action S E B → Action S E B
  m >> k = m >>= λ _. k

rollback_keeps :
    {S E A : Type 0} (P : S → Type 0) (s : S) (r : Result E A × S)
    → P s
    → P r.1
    → P (rollback s r).1
rollback_keeps P s (ok a, s') h k = k
rollback_keeps P s (err e, s') h k = h

-- `m` keeps `P`, whether it returns or throws.
pub record Keeps {S E A : Type 0} (P : S → Type 0) (m : Action S E A) : Type 0 where
  pub at : (s : S) → P s → P (m s).1

module _ {S E A : Type 0} {P : S → Type 0} where
  pub Keeps-pure : (a : A) → Keeps {E = E} P (pure a)
  unfolding pure
  Keeps-pure a = record { at = λ s h. h }

  pub Keeps-throw : (e : E) → Keeps {A = A} P (throw e)
  unfolding throw
  Keeps-throw e = record { at = λ s h. h }

  pub Keeps-gets : (f : S → A) → Keeps {E = E} P (gets f)
  unfolding gets
  Keeps-gets f = record { at = λ s h. h }

  pub Keeps-or_throw : (o : Option A) (e : E) → Keeps P (or_throw o e)
  Keeps-or_throw none e = Keeps-throw e
  Keeps-or_throw (some a) e = Keeps-pure a

  pub Keeps-if :
      (b : Bool) (m n : Action S E A) → Keeps P m → Keeps P n → Keeps P (if b then m else n)
  Keeps-if true m n km kn = km
  Keeps-if false m n km kn = kn

  pub Keeps-transaction : (m : Action S E A) → Keeps P m → Keeps P (transaction m)
  unfolding transaction
  Keeps-transaction m k = record { at = λ s h. rollback_keeps P s (m s) h (k.at s h) }

module _ {S E : Type 0} {P : S → Type 0} where
  pub Keeps-throw_if : (c : Bool) (e : E) → Keeps P (throw_if c e)
  unfolding throw_if
  Keeps-throw_if c e = record { at = λ s h. h }

module _ {S E A B : Type 0} {P : S → Type 0} where
  continue_keeps :
      (f : A → Action S E B) (r : Result E A × S)
      → ((a : A) → Keeps P (f a))
      → P r.1
      → P (continue f r).1
  continue_keeps f (ok a, s) kf h = (kf a).at s h
  continue_keeps f (err e, s) kf h = h

  pub Keeps-bind :
      (m : Action S E A) (f : A → Action S E B)
      → Keeps P m
      → ((a : A) → Keeps P (f a))
      → Keeps P (m >>= f)
  unfolding ◌>>=◌
  Keeps-bind m f km kf = record { at = λ s h. continue_keeps f (m s) kf (km.at s h) }

module _ {S E : Type 0} {P : S → Type 0} where
  pub Keeps-modify : (f : S → S) → ((s : S) → P s → P (f s)) → Keeps {E = E} P (modify f)
  unfolding modify
  Keeps-modify f k = record { at = k }

handle_keeps :
    {S E A : Type 0} (P : S → Type 0) (h : E → Action S E A) (r : Result E A × S)
    → ((e : E) → Keeps P (h e))
    → P r.1
    → P (handle h r).1
handle_keeps P h (ok a, s) kh p = p
handle_keeps P h (err e, s) kh p = (kh e).at s p

pub Keeps-catch :
    {S E A : Type 0} {P : S → Type 0} (m : Action S E A) (h : E → Action S E A)
    → Keeps P m
    → ((e : E) → Keeps P (h e))
    → Keeps P (catch m h)
unfolding catch
Keeps-catch {P = P} m h km kh = record { at = λ s p. handle_keeps P h (m s) kh (km.at s p) }

pub ruleset keeps_rules = (
  Keeps-pure, Keeps-throw, Keeps-gets, Keeps-or_throw, Keeps-if, Keeps-transaction, Keeps-throw_if,
  Keeps-bind,
)

-- A call that returned: what each of its parts returned.
module _ {S E A B : Type 0} where
  continue_returned :
      (f : A → Action S E B) (r : Result E A × S) {b : B} {t : S}
      → continue f r ≡ (ok b, t)
      → (a : A) × (u : S) × (r ≡ (ok a, u)) × (f a u ≡ (ok b, t))
  continue_returned f (ok a, s) h = (a, s, refl, h)
  continue_returned f (err e, s) h = cc

  pub >>=-returned :
      (m : Action S E A) (f : A → Action S E B) (s : S) {b : B} {t : S}
      → (m >>= f) s ≡ (ok b, t)
      → (a : A) × (u : S) × (m s ≡ (ok a, u)) × (f a u ≡ (ok b, t))
  unfolding ◌>>=◌
  >>=-returned m f s h = continue_returned f (m s) h

  pub >>=-err :
      (m : Action S E A) (f : A → Action S E B) (s : S) {e : E} {t : S}
      → m s ≡ (err e, t)
      → (m >>= f) s ≡ (err e, t)
  unfolding ◌>>=◌
  >>=-err m f s h = rw h refl

  pub >>=-ok :
      (m : Action S E A) (f : A → Action S E B) (s : S) {a : A} {t : S}
      → m s ≡ (ok a, t)
      → (m >>= f) s ≡ f a t
  unfolding ◌>>=◌
  >>=-ok m f s h = rw h refl

pub transaction-err :
    {S E A : Type 0} (m : Action S E A) (s : S) {e : E} {t : S}
    → m s ≡ (err e, t)
    → transaction m s ≡ (err e, s)
unfolding transaction
transaction-err m s h = rw h refl

module _ {S E : Type 0} where
  pub throw_if-returned :
      (c : Bool) (e : E) (s : S) {u : Unit {0}} {t : S}
      → throw_if c e s ≡ (ok u, t)
      → (c ≡ false) × (t ≡ s)
  unfolding throw_if
  throw_if-returned true e s h = cc
  throw_if-returned false e s h = (refl, cc)

module _ {S E A : Type 0} where
  pub or_throw-returned :
      (o : Option A) (e : E) (s : S) {a : A} {t : S}
      → or_throw o e s ≡ (ok a, t)
      → (o ≡ some a) × (t ≡ s)
  unfolding pure throw
  or_throw-returned none e s h = cc
  or_throw-returned (some a) e s h = (cc, cc)

  pub gets-returned :
      (f : S → A) (s : S) {a : A} {t : S}
      → ◌≡◌ {A = Result E A × S} (gets f s) (ok a, t)
      → (a ≡ f s) × (t ≡ s)
  unfolding gets
  gets-returned f s h = (cc, cc)

  pub pure-returned :
      (a : A) (s : S) {b : A} {t : S}
      → ◌≡◌ {A = Result E A × S} (pure a s) (ok b, t)
      → (b ≡ a) × (t ≡ s)
  unfolding pure
  pure-returned a s h = (cc, cc)

  rollback-returned :
      (s : S) (r : Result E A × S) {a : A} {t : S} → rollback s r ≡ (ok a, t) → r ≡ (ok a, t)
  rollback-returned s (ok a, u) h = h
  rollback-returned s (err e, u) h = cc

  pub transaction-returned :
      (m : Action S E A) (s : S) {a : A} {t : S} → transaction m s ≡ (ok a, t) → m s ≡ (ok a, t)
  unfolding transaction
  transaction-returned m s h = rollback-returned s (m s) h
