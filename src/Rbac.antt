-- ===== src/Rbac.antt =====
-- backend/src/common/constants/rbac.constants.ts: the rank of a role, and whether roles suffice.
use Prim.Native.Nat.{max, min}
use kapis_receptionist.Prelude.{ℕ, Bool, true, List, [], ◌∷◌, leb, ◌<◌, ◌≡◌, refl, ◌∙◌, arith, any}

pub data RoleName : Type 0 where
  super_admin owner manager staff : RoleName

abbrev pub role_rank : RoleName → ℕ
role_rank super_admin = 100
role_rank owner = 30
role_rank manager = 20
role_rank staff = 10

-- `Math.max(0, ...roles.map(rank))`
unfoldable pub max_rank : List RoleName → ℕ
max_rank [] = 0
max_rank (r ∷ rs) = max (role_rank r) (max_rank rs)

-- `Math.min(...roles.map(rank))` of a list with a first role.
unfoldable pub min_rank : RoleName → List RoleName → ℕ
min_rank r [] = role_rank r
min_rank r (q ∷ rs) = min (role_rank r) (min_rank q rs)

unfoldable pub satisfies_role_requirement : List RoleName → List RoleName → Bool
unfolding max_rank min_rank
satisfies_role_requirement user_roles [] = true
satisfies_role_requirement user_roles (r ∷ rs) = leb (min_rank r rs) (max_rank user_roles)

-- The access token of a caller.
pub record AccessTokenPayload : Type 0 where
  pub sub : ℕ
  pub roles : List RoleName

role_rank_pos : (r : RoleName) → 0 < role_rank r
role_rank_pos super_admin = omega arith
role_rank_pos owner = omega arith
role_rank_pos manager = omega arith
role_rank_pos staff = omega arith

min_rank_pos : (q : RoleName) (qs : List RoleName) → 0 < min_rank q qs
unfolding min_rank
min_rank_pos q [] = role_rank_pos q
min_rank_pos q (p ∷ qs) = omega (arith, role_rank_pos q, min_rank_pos p qs)

leb-max_rank :
    (n : ℕ) (us : List RoleName) → 0 < n → leb n (max_rank us) ≡ any (λ r. leb n (role_rank r)) us
unfolding max_rank any
leb-max_rank n [] h = ground arith
leb-max_rank n (u ∷ us) h = ground (arith, leb-max_rank n us h)

leb-min_rank :
    (m : ℕ) (q : RoleName) (qs : List RoleName)
    → leb (min_rank q qs) m ≡ any (λ p. leb (role_rank p) m) (q ∷ qs)
unfolding min_rank any
leb-min_rank m q [] = ground arith
leb-min_rank m q (p ∷ qs) = ground (arith, leb-min_rank m p qs)

any-cong : {A : Type 0} (f g : A → Bool) (xs : List A) → ((x : A) → f x ≡ g x) → any f xs ≡ any g xs
unfolding any
any-cong f g [] h = refl
any-cong f g (x ∷ xs) h = rw (h x, any-cong f g xs h) refl

-- Where some role is required, the caller's roles suffice exactly if one of them ranks at least as
-- high as one of the required roles.
pub satisfies_some_role :
    (us : List RoleName) (q : RoleName) (qs : List RoleName)
    → satisfies_role_requirement us (q ∷ qs)
      ≡ any (λ r. any (λ p. leb (role_rank p) (role_rank r)) (q ∷ qs)) us
unfolding satisfies_role_requirement
satisfies_some_role us q qs =
    leb-max_rank (min_rank q qs) us (min_rank_pos q qs)
    ∙ any-cong _ _ us (λ r. leb-min_rank (role_rank r) q qs)
