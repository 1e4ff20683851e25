-- ===== src/Idempotency.antt =====
-- backend/src/core/idempotency/idempotency.interceptor.ts. Keys, bodies and their hashes are
-- numbers; `S` is what the handler of the request reads and writes. The response is stored without
-- waiting for Redis: whether it is stored before the next request is an argument.
pub mod Retries
use kapis_receptionist.Prelude.{
  ℕ, Option, List, Bool, ◌&&◌, none, some, ◌∷◌, ◌==◌, if◌then◌else◌, find, get_or,
}
use kapis_receptionist.Prelude.Action.{Result, err, ok, Action}

-- `JSON` of the responses response.
pub record StoredResponse (B : Type 0) : Type 0 where
  pub request_hash : ℕ
  pub status_code : ℕ
  pub body : B

pub record GuardedRequest : Type 0 where
  pub tenant_id : ℕ
  pub key : Option ℕ  -- the header `Idempotency-Key`
  pub body : ℕ

pub data IdempotencyError (E : Type 0) : Type 0 where
  key_required key_reused : IdempotencyError E
  handler_error : E → IdempotencyError E

-- What is stored of a key `idempotency:{tenant}:{key}` within its time to live, newest first.
pub record StoredKey (B : Type 0) : Type 0 where
  pub tenant_id : ℕ
  pub key : ℕ
  pub response : StoredResponse B

pub record Served (B S : Type 0) : Type 0 where
  pub responses : List (StoredKey B)
  pub state : S

pub record Reply (B : Type 0) : Type 0 where
  pub status_code : ℕ
  pub body : B

-- `@HttpCode` of the route, and the status that the framework answers with where there is none.
pub record Route : Type 0 where
  pub http_code : Option ℕ
  pub default_status : ℕ

abbrev pub replied_status : Route → ℕ
replied_status route = get_or route.http_code route.default_status

-- `intendedStatusCode`
abbrev pub intended_status : Route → ℕ
intended_status route = get_or route.http_code 200

abbrev pub has_stored_key : {B : Type 0} → ℕ → ℕ → StoredKey B → Bool
has_stored_key tenant key k = k.tenant_id == tenant && k.key == key

-- `redis.get`
unfoldable pub look_up : {B S : Type 0} → ℕ → ℕ → Served B S → Option (StoredKey B)
unfolding find
look_up tenant key w = find (has_stored_key tenant key) w.responses

abbrev pub stored_of : {B : Type 0} → (ℕ → ℕ) → GuardedRequest → ℕ → ℕ → B → StoredKey B
stored_of hash req key status body = record {
  tenant_id = req.tenant_id;
  key = key;
  response = record { request_hash = hash req.body; status_code = status; body = body };
}

module _ {B S E : Type 0} (hash : ℕ → ℕ) where
  -- What follows the handler: a body is returned with the status of the route, and stored with the
  -- intended one; an error is stored nowhere.
  abbrev pub after_handler :
      Route
      → Bool
      → GuardedRequest
      → ℕ
      → List (StoredKey B)
      → Result E B × S
      → Result (IdempotencyError E) (Reply B) × Served B S
  after_handler route stores req key responses (ok body, s) = (
    ok (record { status_code = replied_status route; body = body }),
    record {
      responses =
          if stores
          then stored_of hash req key (intended_status route) body ∷ responses
          else responses;
      state = s;
    },
  )
  after_handler route stores req key responses (err e, s) =
      (err (handler_error e), record { responses = responses; state = s })

  -- The rest of a request, from what its look-up found.
  unfoldable pub finish :
      Route
      → Bool
      → Action S E B
      → GuardedRequest
      → ℕ
      → Option (StoredKey B)
      → Action (Served B S) (IdempotencyError E) (Reply B)
  finish route stores handler req key none w =
      after_handler route stores req key w.responses (handler w.state)
  finish route stores handler req key (some k) w = (
    if k.response.request_hash == hash req.body
        then ok (record { status_code = k.response.status_code; body = k.response.body })
        else err key_reused,
    w,
  )

  abbrev pub with_key :
      Route
      → Bool
      → Action S E B
      → GuardedRequest
      → Option ℕ
      → Action (Served B S) (IdempotencyError E) (Reply B)
  with_key route stores handler req none w = (err key_required, w)
  with_key route stores handler req (some key) w =
      finish route stores handler req key (look_up req.tenant_id key w) w

  -- `intercept`, with the route, whether Redis stores the response, and the handler.
  unfoldable pub intercept :
      Route
      → Bool
      → Action S E B
      → GuardedRequest
      → Action (Served B S) (IdempotencyError E) (Reply B)
  unfolding look_up finish
  intercept route stores handler req w = with_key route stores handler req req.key w
