-- ===== src/Auth/Sessions.antt =====
-- backend/src/modules/auth/application/session.service.ts, token.service.ts and
-- infrastructure/prisma-refresh-token.repository.ts. Instants are milliseconds.
use kapis_receptionist.Prelude.{
  ℕ, ◌+◌, ◌*◌, Bool, not, ◌&&◌, Option, none, some, ◌∷◌, ltb, ◌==◌, if◌then◌else◌, is_some, length,
  keep, find, update_where,
}
use kapis_receptionist.Prelude.Action.{or_throw, modify, throw_if, throw, ◌>>=◌, gets, pure, ◌>>◌}
use kapis_receptionist.Auth.Tables.{
  row_not_found, unique_violation, session_hash_column, refresh_token_reuse_detected,
  invalid_refresh_token, Primitives, AuthStore, AuthAction, AuthEnv, RefreshTokenRecord,
}
use kapis_receptionist.Rbac.{AccessTokenPayload}

abbrev pub has_hash : ℕ → RefreshTokenRecord → Bool
has_hash h r = r.refresh_token_hash == h

abbrev pub is_session : ℕ → RefreshTokenRecord → Bool
is_session id r = r.id == id

-- `where: { userId, revokedAt: null }`
abbrev pub is_active_of : ℕ → RefreshTokenRecord → Bool
is_active_of user_id r = r.user_id == user_id && not (is_some r.revoked_at)

abbrev pub revoked_row : ℕ → RefreshTokenRecord → RefreshTokenRecord
revoked_row now r = record r { revoked_at = some now }

-- An undefined value leaves the column as it is.
abbrev pub replaced_row : ℕ → Option ℕ → RefreshTokenRecord → RefreshTokenRecord
replaced_row now none r = record r { revoked_at = some now }
replaced_row now (some next) r = record r {
  revoked_at = some now;
  replaced_by_session_id = some next;
}

unfoldable pub hash_refresh_token : Primitives → ℕ → ℕ
hash_refresh_token k raw = k.hmac k.refresh_pepper raw

unfoldable pub hash_opaque_token : Primitives → ℕ → ℕ
hash_opaque_token k raw = k.sha256 raw

-- The token and its `expiresIn`, in seconds.
unfoldable pub sign_access_token : Primitives → AccessTokenPayload → ℕ × ℕ
sign_access_token k payload =
    (k.jwt_sign payload k.access_secret k.access_expires_in_seconds, k.access_expires_in_seconds)

pub record RequestMeta : Type 0 where
  pub user_agent : Option ℕ
  pub ip_address : Option ℕ

pub record IssuedSession : Type 0 where
  pub id : ℕ
  pub raw_refresh_token : ℕ
  pub expires_at : ℕ

pub record RotatedSession : Type 0 where
  pub session : IssuedSession
  pub user_id : ℕ

abbrev pub session_row : Primitives → AuthEnv → ℕ → RequestMeta → RefreshTokenRecord
session_row k env user_id info = record {
  id = env.new_id;
  user_id = user_id;
  refresh_token_hash = hash_refresh_token k env.refresh_token;
  user_agent = info.user_agent;
  ip_address = info.ip_address;
  expires_at = env.now + k.refresh_expires_in_seconds * 1000;
  revoked_at = none;
  replaced_by_session_id = none;
  created_at = env.now;
}

module _ {R : Type 0} where
  unfoldable pub find_by_hash : ℕ → AuthStore R → Option RefreshTokenRecord
  unfolding find
  find_by_hash h s = find (has_hash h) s.sessions

  -- `create`; the column `refreshTokenHash` is unique.
  unfoldable pub create_session : RefreshTokenRecord → AuthAction R RefreshTokenRecord
  unfolding ◌>>=◌ find_by_hash
  create_session row = do
    clash ← gets (find_by_hash row.refresh_token_hash)
    throw_if (is_some clash) (unique_violation session_hash_column)
    modify (λ s. record s { sessions = row ∷ s.sessions })
    pure row

  -- `revoke(id, replacedBySessionId?)` of the repository
  unfoldable pub revoke_session : ℕ → ℕ → Option ℕ → AuthAction R (Unit {0})
  unfolding ◌>>=◌ find update_where
  revoke_session now id next = do
    found ← gets (λ s. find (is_session id) s.sessions)
    or_throw found row_not_found
    modify (λ s. record s {
      sessions = update_where (is_session id) (replaced_row now next) s.sessions;
    })

  -- The number of rows that it revoked.
  unfoldable pub revoke_all_active_for_user : ℕ → ℕ → AuthAction R ℕ
  unfolding ◌>>=◌ keep update_where
  revoke_all_active_for_user now user_id = do
    n ← gets (λ s. length (keep (is_active_of user_id) s.sessions))
    modify (λ s. record s {
      sessions = update_where (is_active_of user_id) (revoked_row now) s.sessions;
    })
    pure n

  unfoldable pub issue_session : Primitives → AuthEnv → ℕ → RequestMeta → AuthAction R IssuedSession
  unfolding ◌>>=◌ hash_refresh_token create_session
  issue_session k env user_id info = do
    created ← create_session (session_row k env user_id info)
    pure (record {
      id = created.id;
      raw_refresh_token = env.refresh_token;
      expires_at = created.expires_at;
    })

  -- The branch of `rotate` on a token that is revoked already.
  abbrev pub reject_revoked : AuthEnv → RefreshTokenRecord → AuthAction R RotatedSession
  reject_revoked env row =
      if is_some row.replaced_by_session_id
      then revoke_all_active_for_user env.now row.user_id >> throw refresh_token_reuse_detected
      else throw invalid_refresh_token

  abbrev pub replace_session :
      Primitives → AuthEnv → RefreshTokenRecord → RequestMeta → AuthAction R RotatedSession
  replace_session k env row info = do
    throw_if (ltb row.expires_at env.now) invalid_refresh_token
    next ← issue_session k env row.user_id info
    revoke_session env.now row.id (some next.id)
    pure (record { session = next; user_id = row.user_id })

  abbrev pub rotate_row :
      Primitives → AuthEnv → RequestMeta → RefreshTokenRecord → AuthAction R RotatedSession
  rotate_row k env info row =
      if is_some row.revoked_at then reject_revoked env row else replace_session k env row info

  unfoldable pub rotate : Primitives → AuthEnv → ℕ → RequestMeta → AuthAction R RotatedSession
  unfolding ◌>>=◌ hash_refresh_token find_by_hash issue_session revoke_session
      revoke_all_active_for_user
  rotate k env raw info = do
    found ← gets (find_by_hash (hash_refresh_token k raw))
    row ← or_throw found invalid_refresh_token
    rotate_row k env info row

  abbrev pub revoke_found : AuthEnv → Option RefreshTokenRecord → AuthAction R (Unit {0})
  revoke_found env none = pure tt
  revoke_found env (some row) =
      if is_some row.revoked_at then pure tt else revoke_session env.now row.id none

  -- `revoke(rawRefreshToken)` of the service
  unfoldable pub revoke_token : Primitives → AuthEnv → ℕ → AuthAction R (Unit {0})
  unfolding ◌>>=◌ hash_refresh_token find_by_hash revoke_session
  revoke_token k env raw = do
    found ← gets (find_by_hash (hash_refresh_token k raw))
    revoke_found env found

  unfoldable pub revoke_all_for_user : AuthEnv → ℕ → AuthAction R ℕ
  unfolding revoke_all_active_for_user
  revoke_all_for_user env user_id = revoke_all_active_for_user env.now user_id
