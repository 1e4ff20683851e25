-- ===== src/Idempotency/Retries.antt =====
-- Requests that are sent again: backend/src/core/idempotency/idempotency.interceptor.ts.
use kapis_receptionist.Prelude.{
  ℕ, ◌≡◌, true, Option, none, some, List, arith, ◌==◌, find, refl, Bool,
}
use kapis_receptionist.Prelude.Action.{Result, err, ok, Action}
use kapis_receptionist.Idempotency.{
  after_handler, look_up, finish, Served, stored_of, StoredKey, Reply, GuardedRequest, with_key,
  intercept, intended_status, replied_status, Route,
}

module _ {B S : Type 0} (hash : ℕ → ℕ) where
  -- The key holds a response to this body.
  abbrev pub Answered : GuardedRequest → ℕ → Reply B → Served B S → Type 0
  Answered req key r w =
      (k : StoredKey B) × (look_up req.tenant_id key w ≡ some k)
      × ((k.response.request_hash == hash req.body) ≡ true)
      × (r ≡ record { status_code = k.response.status_code; body = k.response.body })

module _ {B S E : Type 0} (hash : ℕ → ℕ) (route : Route) where
  after_handler-Answered :
      (req : GuardedRequest) (key : ℕ) (responses : List (StoredKey B)) (d : Result E B × S)
      {r : Reply B} {w : Served B S}
      → replied_status route ≡ intended_status route
      → after_handler hash route true req key responses d ≡ (ok r, w)
      → Answered hash req key r w
  unfolding look_up find
  after_handler-Answered req key responses (ok body, s) {r} {w} declared e =
      (stored_of hash req key (intended_status route) body, ground arith, ground arith, cc)
  after_handler-Answered req key responses (err b, s) declared e = absurd (ground arith)

  finish-Answered :
      (handler : Action S E B) (req : GuardedRequest) (key : ℕ) (o : Option (StoredKey B))
      (w : Served B S) {r : Reply B} {w' : Served B S}
      → replied_status route ≡ intended_status route
      → look_up req.tenant_id key w ≡ o
      → finish hash route true handler req key o w ≡ (ok r, w')
      → Answered hash req key r w'
  unfolding finish
  finish-Answered handler req key none w declared found e =
      after_handler-Answered req key w.responses (handler w.state) declared e
  finish-Answered handler req key (some k) w {r} {w'} declared found e =
      (k, ground arith, ground arith, ground arith)

  Answered-replayed :
      (stores : Bool) (handler : Action S E B) (req : GuardedRequest) (key : ℕ) (r : Reply B)
      (w : Served B S)
      → Answered hash req key r w
      → finish hash route stores handler req key (look_up req.tenant_id key w) w ≡ (ok r, w)
  unfolding finish
  Answered-replayed stores handler req key r w (k, found, same, e) = rw (found, same, e) refl

  keyed-Answered :
      (handler : Action S E B) (req : GuardedRequest) (o : Option ℕ) (w : Served B S) {r : Reply B}
      {w' : Served B S}
      → replied_status route ≡ intended_status route
      → with_key hash route true handler req o w ≡ (ok r, w')
      → (stores : Bool) (handler' : Action S E B)
      → with_key hash route stores handler' req o w' ≡ (ok r, w')
  keyed-Answered handler req none w declared e stores handler' = absurd (ground arith)
  keyed-Answered handler req (some key) w {r} {w'} declared e stores handler' =
      Answered-replayed stores handler' req key r w'
        (finish-Answered handler req key (look_up req.tenant_id key w) w declared refl e)

  -- On a route that answers with the status that is stored, once a request was answered and its
  -- response stored, the same request gets the same status and body again and changes nothing: its
  -- handler does not run a second time.
  pub retry_replays :
      (handler : Action S E B) (req : GuardedRequest) (w : Served B S) {r : Reply B}
      {w' : Served B S}
      → replied_status route ≡ intended_status route
      → intercept hash route true handler req w ≡ (ok r, w')
      → (stores : Bool) (handler' : Action S E B)
      → intercept hash route stores handler' req w' ≡ (ok r, w')
  unfolding intercept
  retry_replays handler req w declared e stores handler' =
      keyed-Answered handler req req.key w declared e stores handler'

  -- On a route without a status of its own, a request whose key is new and whose handler returns is
  -- answered with the status of the framework, but its retry, once the response is stored, with 200.
  pub retry_of_default_status :
      (handler : Action S E B) (req : GuardedRequest) (w : Served B S) {key : ℕ} {body : B} {s : S}
      → route.http_code ≡ none
      → req.key ≡ some key
      → look_up req.tenant_id key w ≡ none
      → handler w.state ≡ (ok body, s)
      → ((intercept hash route true handler req w).0
          ≡ ok (record { status_code = route.default_status; body = body }))
        × ((intercept hash route true handler req (intercept hash route true handler req w).1).0
            ≡ ok (record { status_code = 200; body = body }))
  unfolding intercept finish look_up find
  retry_of_default_status handler req w plain keyed free done = ground arith
