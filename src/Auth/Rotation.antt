-- ===== src/Auth/Rotation.antt =====
-- Rotation of refresh tokens and what follows it:
-- backend/src/modules/auth/application/session.service.ts.
use kapis_receptionist.Auth.Requests.{serve_all}
use kapis_receptionist.Prelude.{
  ℕ, ◌≡◌, refl, true, List, [], ◌∷◌, arith, is_some, update_where, All, none, some, ltb,
  if◌then◌else◌, find, find-update_where, sym, ap, ◌∙◌, subst, Bool, false,
}
use kapis_receptionist.Auth.Tables.{
  AuthStore, AuthEnv, Primitives, refresh_token_reuse_detected, RefreshTokenRecord,
  invalid_refresh_token,
}
use kapis_receptionist.Auth.Sessions.{
  RequestMeta, hash_refresh_token, rotate, is_active_of, revoked_row, revoke_all_active_for_user,
  find_by_hash, replaced_row, replace_session, create_session, has_hash, is_session, RotatedSession,
  IssuedSession, issue_session, session_row, revoke_session, reject_revoked, rotate_row,
}
use kapis_receptionist.Auth.Replay.{IsReplaced, IsReplaced-Stable}
use kapis_receptionist.Prelude.Action.{
  err, throw_if-returned, throw_if, >>=-returned, ok, gets-returned, or_throw, gets,
  or_throw-returned, pure-returned, ◌>>=◌,
}
use kapis_receptionist.Auth.KeptRequests.{serve_all_keeps}
use kapis_receptionist.Auth.Requests.{AuthRequest}
use kapis_receptionist.Auth.Counters.{Counters}

-- Every session of the user is revoked.
abbrev pub AllRevoked : {R : Type 0} → ℕ → AuthStore R → Type 0
AllRevoked u s = All (λ r. r.user_id ≡ u → is_some r.revoked_at ≡ true) s.sessions

pub revoke-AllRevoked :
    (now u : ℕ) (rs : List RefreshTokenRecord)
    → All
        (λ r. r.user_id ≡ u → is_some r.revoked_at ≡ true)
        (update_where (is_active_of u) (revoked_row now) rs)
unfolding update_where
revoke-AllRevoked now u [] = tt
revoke-AllRevoked now u (r ∷ rs) = (ground arith, revoke-AllRevoked now u rs)

module _ {R : Type 0} (k : Primitives) where
  reject_revoked-reuse :
      (env : AuthEnv) (raw u : ℕ) (info : RequestMeta) (s : AuthStore R)
      → IsReplaced (hash_refresh_token k raw) u s
      → ((rotate k env raw info s).0 ≡ err refresh_token_reuse_detected)
        × AllRevoked u (rotate k env raw info s).1
  unfolding rotate revoke_all_active_for_user
  reject_revoked-reuse env raw u info s (r, found, revoked, replaced, same) =
      rw (found, revoked, replaced, same) (refl, revoke-AllRevoked env.now u s.sessions)

  issue_session-returned :
      (env : AuthEnv) (u : ℕ) (info : RequestMeta) (s : AuthStore R) {n : IssuedSession}
      {t : AuthStore R}
      → issue_session k env u info s ≡ (ok n, t)
      → (find_by_hash (session_row k env u info).refresh_token_hash s ≡ none)
        × (t ≡ record s { sessions = session_row k env u info ∷ s.sessions })
  unfolding issue_session create_session
  issue_session-returned env u info s {n} {t} e = ground arith

  find-IsReplaced :
      (now h next : ℕ) (row : RefreshTokenRecord) (s : AuthStore R)
      → find_by_hash h s ≡ some row
      → IsReplaced h row.user_id (record s {
        sessions = update_where (is_session row.id) (replaced_row now (some next)) s.sessions;
      })
  unfolding find_by_hash
  find-IsReplaced now h next row s found = (
    (if is_session row.id row then replaced_row now (some next) row else row),
    find-update_where (has_hash h) (is_session row.id) (replaced_row now (some next)) (λ x. refl)
        s.sessions found,
    ground arith,
    ground arith,
    ground arith,
  )

  find-cons :
      (h : ℕ) (new row : RefreshTokenRecord) (s : AuthStore R)
      → find_by_hash new.refresh_token_hash s ≡ none
      → find_by_hash h s ≡ some row
      → find_by_hash h (record s { sessions = new ∷ s.sessions }) ≡ some row
  unfolding find_by_hash find
  find-cons h new row s free found = ground arith

  revoke_session-returned :
      (now id next : ℕ) (s : AuthStore R) {v : Unit {0}} {t : AuthStore R}
      → revoke_session now id (some next) s ≡ (ok v, t)
      → t ≡ record s {
        sessions = update_where (is_session id) (replaced_row now (some next)) s.sessions;
      }
  unfolding revoke_session
  revoke_session-returned now id next s {v} {t} e = ground arith

  replace_session-IsReplaced :
      (env : AuthEnv) (h : ℕ) (row : RefreshTokenRecord) (info : RequestMeta) (s : AuthStore R)
      {r : RotatedSession} {t : AuthStore R}
      → find_by_hash h s ≡ some row
      → replace_session k env row info s ≡ (ok r, t)
      → (r.user_id ≡ row.user_id) × IsReplaced h row.user_id t
  replace_session-IsReplaced env h row info s {r} {t} found e =
      let (v, m, passed, rest) =
        >>=-returned (throw_if (ltb row.expires_at env.now) invalid_refresh_token) _ s e in
      let (fresh, same) = throw_if-returned _ _ s passed in
      let (next, n, issued, rest') = >>=-returned (issue_session k env row.user_id info) _ m rest in
      let (free, grown) = issue_session-returned env row.user_id info m issued in
      let (w, o, replaced, last) =
        >>=-returned (revoke_session env.now row.id (some next.id)) _ n rest' in
      let found' : find_by_hash h n ≡ some row =
        subst (λ x. find_by_hash h x ≡ some row) (sym grown)
          (find-cons h _ row m free (subst (λ x. find_by_hash h x ≡ some row) (sym same) found)) in
      let (user, unmoved) = pure-returned _ o last in
      (
        ap (λ x. x.user_id) user,
        subst (IsReplaced h row.user_id)
            (sym (unmoved ∙ revoke_session-returned env.now row.id next.id n replaced))
            (find-IsReplaced env.now h next.id row n found'),
      )

  branch-IsReplaced :
      (env : AuthEnv) (h : ℕ) (row : RefreshTokenRecord) (info : RequestMeta) (s : AuthStore R)
      {r : RotatedSession} {t : AuthStore R} (b : Bool)
      → find_by_hash h s ≡ some row
      → (if b then reject_revoked env row else replace_session k env row info) s ≡ (ok r, t)
      → (r.user_id ≡ row.user_id) × IsReplaced h row.user_id t
  unfolding ◌>>=◌ revoke_all_active_for_user
  branch-IsReplaced env h row info s {r} {t} true found e = ground arith
  branch-IsReplaced env h row info s false found e =
      replace_session-IsReplaced env h row info s found e

  rotate-IsReplaced :
      (env : AuthEnv) (raw : ℕ) (info : RequestMeta) (s : AuthStore R) {r : RotatedSession}
      {t : AuthStore R}
      → rotate k env raw info s ≡ (ok r, t)
      → IsReplaced (hash_refresh_token k raw) r.user_id t
  unfolding rotate
  rotate-IsReplaced env raw info s {r} {t} e =
      let (o, m, got, rest) =
        >>=-returned (gets (find_by_hash (hash_refresh_token k raw)))
          (λ x. or_throw x invalid_refresh_token >>= rotate_row k env info) s e in
      let (same, here) = gets-returned (find_by_hash (hash_refresh_token k raw)) s got in
      let (row, n, found, rest') =
        >>=-returned (or_throw o invalid_refresh_token) (rotate_row k env info) m rest in
      let (there, unmoved) = or_throw-returned o invalid_refresh_token m found in
      let (user, dead) =
        branch-IsReplaced env (hash_refresh_token k raw) row info n (is_some row.revoked_at)
          (subst (λ x. find_by_hash (hash_refresh_token k raw) x ≡ some row) (sym (unmoved ∙ here))
            (sym same ∙ there))
          rest' in
      subst (λ u. IsReplaced (hash_refresh_token k raw) u t) (sym user) dead

-- A refresh token that was rotated is never accepted again, whatever requests the auth and
-- invitation services serve in between: it is refused as reused, and then every session of its user
-- is revoked.
pub rotated_token_replay :
    {R : Type 0} ⦃c : Counters R⦄ (k : Primitives) (env : AuthEnv) (raw : ℕ) (info : RequestMeta)
    (s : AuthStore R) {r : RotatedSession} {t : AuthStore R}
    → rotate k env raw info s ≡ (ok r, t)
    → (qs : List (AuthEnv × AuthRequest)) (env' : AuthEnv) (info' : RequestMeta)
    → ((rotate k env' raw info' (serve_all k qs t)).0 ≡ err refresh_token_reuse_detected)
      × AllRevoked r.user_id (rotate k env' raw info' (serve_all k qs t)).1
rotated_token_replay k env raw info s {r} {t} e qs env' info' =
    reject_revoked-reuse k env' raw r.user_id info' (serve_all k qs t) (
      serve_all_keeps (IsReplaced-Stable (hash_refresh_token k raw) r.user_id) k qs t
        (rotate-IsReplaced k env raw info s e))
