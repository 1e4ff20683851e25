-- ===== src/Locking/Keyspace.antt =====
-- What the lock service relies on of Redis, which is not part of the repository: `SET key token PX
-- ttl NX`, and scripts that read and delete a key in one step. Keys are those of employees.
use kapis_receptionist.Prelude.{ℕ, ◌≡◌, Bool, ◌&&◌, Option, none, some, ◌==◌, if◌then◌else◌, ◌⊎◌}

pub data SetReply : Type 0 where
  stored : SetReply  -- "OK"
  refused : SetReply  -- nil: the key exists
  failed : SetReply  -- the command threw, be it that only its reply was lost

abbrev pub is_employee_key : ℕ → ℕ → ℕ → ℕ → Bool
is_employee_key tenant employee t e = tenant == t && employee == e

-- From the values `old` to `new`, the key of an employee was stored where there was none, and no other
-- key changed.
pub record IsStored (t e token : ℕ) (old new : ℕ → ℕ → Option ℕ) : Type 0 where
  pub was_free : old t e ≡ none
  pub stored_only : (u f : ℕ) → new u f ≡ (if is_employee_key t e u f then some token else old u f)

pub record Redis (K : Type 0) : Type 0 where
  pub get : ℕ → ℕ → K → Option ℕ
  pub set_nx : ℕ → ℕ → ℕ → K → SetReply × K
  pub delete : ℕ → ℕ → K → K
  pub runs : K → Bool  -- whether the server runs a script that is sent to it now
  pub get-stored :
      (t e token : ℕ) (k : K)
      → (set_nx t e token k).0 ≡ stored
      → IsStored t e token (λ u f. get u f k) (λ u f. get u f (set_nx t e token k).1)
  pub get-refused :
      (t e token : ℕ) (k : K)
      → (set_nx t e token k).0 ≡ refused
      → (u f : ℕ) → get u f (set_nx t e token k).1 ≡ get u f k
  -- A command that threw has run or has not.
  pub get-failed :
      (t e token : ℕ) (k : K)
      → (set_nx t e token k).0 ≡ failed
      → ((u f : ℕ) → get u f (set_nx t e token k).1 ≡ get u f k)
        ⊎ IsStored t e token (λ u f. get u f k) (λ u f. get u f (set_nx t e token k).1)
  pub get-delete :
      (t e u f : ℕ) (k : K)
      → get u f (delete t e k) ≡ (if is_employee_key t e u f then none else get u f k)
