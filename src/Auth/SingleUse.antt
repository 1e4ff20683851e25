-- ===== src/Auth/SingleUse.antt =====
-- The tokens of the links in e-mails: `resetPassword` and `verifyEmail` of
-- backend/src/modules/auth/application/auth.service.ts.
use kapis_receptionist.Auth.Requests.{serve_all, AuthRequest}
use kapis_receptionist.Auth.Requests.{Stable}
use kapis_receptionist.Prelude.{
  find-update_where, find-keep, ℕ, ◌≡◌, refl, true, not, Option, none, some, arith, if◌then◌else◌,
  is_some, keep, find, update_where, sym, subst, List, find-updated,
}
use kapis_receptionist.Auth.Sessions.{
  revoked_row, create_session, is_active_of, revoke_all_for_user, hash_opaque_token, revoke_session,
  revoke_all_active_for_user,
}
use kapis_receptionist.Auth.Tables.{
  Primitives, AuthEnv, invalid_or_expired_token, AuthUser, PasswordResetRecord, AuthStore,
}
use kapis_receptionist.Prelude.Action.{err, ok, keeps_rules, Keeps-modify}
use kapis_receptionist.Auth.Users.{
  mark_verified, update_user, find_reset, update_password, invalidate_active_verifications,
  create_verification, is_open_reset_of, find_user_by_id, create_reset, is_user,
  invalidate_active_resets, mark_used, used_row, is_reset, has_reset_hash,
}
use kapis_receptionist.Auth.Accounts.{reset_password}
use kapis_receptionist.Auth.Rotation.{AllRevoked, revoke-AllRevoked}
use kapis_receptionist.Auth.Counters.{Counters}
use kapis_receptionist.Auth.KeptRequests.{serve_all_keeps}

abbrev pub IsUsed : {R : Type 0} → ℕ → AuthStore R → Type 0
IsUsed h s = (p : PasswordResetRecord) × (find_reset h s ≡ some p) × (is_some p.used_at ≡ true)

module _ {R : Type 0} (h : ℕ) where
  created-IsUsed :
      (row : PasswordResetRecord) (s : AuthStore R) (o : Option PasswordResetRecord)
      → find_reset row.token_hash s ≡ o
      → IsUsed h s
      → IsUsed h (create_reset row s).1
  unfolding create_reset find_reset find
  created-IsUsed row s none e (p, found, used) = (p, ground arith, used)
  created-IsUsed row s (some x) e p = rw e p

  marked-IsUsed :
      (now id : ℕ) (s : AuthStore R)
      → IsUsed h s
      → IsUsed h (record s { resets = update_where (is_reset id) (used_row now) s.resets })
  unfolding find_reset
  marked-IsUsed now id s (p, found, used) = (
    (if is_reset id p then used_row now p else p),
    find-update_where (has_reset_hash h) (is_reset id) (used_row now) (λ x. refl) s.resets found,
    ground arith,
  )

  kept-IsUsed :
      (user_id : ℕ) (s : AuthStore R)
      → IsUsed h s
      → IsUsed h (record s { resets = keep (λ p. not (is_open_reset_of user_id p)) s.resets })
  unfolding find_reset
  kept-IsUsed user_id s (p, found, used) =
      (p, find-keep (has_reset_hash h) _ s.resets found (ground arith), used)

  IsUsed-Stable : Stable {R = R} (IsUsed h)
  unfolding find_reset create_verification mark_verified invalidate_active_verifications
      create_session mark_used invalidate_active_resets revoke_session revoke_all_active_for_user
  IsUsed-Stable = record {
    keeps_users = λ s x p. p;
    keeps_tenants = λ s x p. p;
    keeps_settings = λ s x p. p;
    keeps_billing = λ s x p. p;
    keeps_invitations = λ s x p. p;
    keeps_audit = λ s x p. p;
    keeps_mails = λ s x p. p;
    keeps_redis = λ s x p. p;
    session_created = λ row. search (keeps_rules, Keeps-modify) depth 12;
    session_revoked = λ now id next. search (keeps_rules, Keeps-modify) depth 12;
    all_revoked = λ now id. search (keeps_rules, Keeps-modify) depth 12;
    verification_created = λ row. search (keeps_rules, Keeps-modify) depth 12;
    verification_marked = λ now id. search (keeps_rules, Keeps-modify) depth 12;
    verifications_invalidated = λ id. search (keeps_rules, Keeps-modify) depth 12;
    reset_created =
        λ row. record { at = λ s p. created-IsUsed row s (find_reset row.token_hash s) refl p };
    reset_marked = λ now id. search (keeps_rules, Keeps-modify, marked-IsUsed) depth 12;
    resets_invalidated = λ id. search (keeps_rules, Keeps-modify, kept-IsUsed) depth 12;
  }

module _ {R : Type 0} (k : Primitives) where
  IsUsed-refused :
      (env : AuthEnv) (raw password : ℕ) (s : AuthStore R)
      → IsUsed (hash_opaque_token k raw) s
      → reset_password k env raw password s ≡ (err invalid_or_expired_token, s)
  unfolding reset_password
  IsUsed-refused env raw password s (p, found, used) = rw (found, used) refl

  -- What the writes of a reset of the user with this row leave.
  abbrev ResetDone : PasswordResetRecord → ℕ → ℕ → AuthStore R → AuthStore R → Type 0
  ResetDone row hash now s t = t ≡ record s {
    users =
        update_where (is_user row.user_id) (λ u. record u { password_hash = some hash }) s.users;
    resets = update_where (is_reset row.id) (used_row now) s.resets;
    sessions = update_where (is_active_of row.user_id) (revoked_row now) s.sessions;
  }

  -- What a reset that returns found and wrote.
  abbrev pub IsReset : AuthEnv → ℕ → ℕ → AuthStore R → AuthStore R → Type 0
  IsReset env raw password s t =
      (row : PasswordResetRecord) × (find_reset (hash_opaque_token k raw) s ≡ some row)
      × (user : AuthUser) × (find_user_by_id row.user_id s ≡ some user)
      × ResetDone row (k.argon2_hash env.salt password) env.now s t

  user-IsReset :
      (env : AuthEnv) (raw password : ℕ) (s : AuthStore R) (row : PasswordResetRecord)
      (c : Option AuthUser) {v : Unit {0}} {t : AuthStore R}
      → find_reset (hash_opaque_token k raw) s ≡ some row
      → find_user_by_id row.user_id s ≡ c
      → reset_password k env raw password s ≡ (ok v, t)
      → IsReset env raw password s t
  unfolding reset_password update_password update_user mark_used revoke_all_for_user
      revoke_all_active_for_user
  user-IsReset env raw password s row none {v} {t} f g e = absurd (ground arith)
  user-IsReset env raw password s row (some user) {v} {t} f g e = (row, f, user, g, ground arith)

  row-IsReset :
      (env : AuthEnv) (raw password : ℕ) (s : AuthStore R) (o : Option PasswordResetRecord)
      {v : Unit {0}} {t : AuthStore R}
      → find_reset (hash_opaque_token k raw) s ≡ o
      → reset_password k env raw password s ≡ (ok v, t)
      → IsReset env raw password s t
  unfolding reset_password
  row-IsReset env raw password s none {v} {t} f e = absurd (ground arith)
  row-IsReset env raw password s (some row) f e =
      user-IsReset env raw password s row (find_user_by_id row.user_id s) f refl e

  IsReset-IsUsed :
      (env : AuthEnv) (raw password : ℕ) (s t : AuthStore R)
      → IsReset env raw password s t
      → IsUsed (hash_opaque_token k raw) t
  unfolding find_reset
  IsReset-IsUsed env raw password s t (row, found, user, there, done) =
      subst (IsUsed (hash_opaque_token k raw)) (sym done) (
        (if is_reset row.id row then used_row env.now row else row),
        find-update_where (has_reset_hash (hash_opaque_token k raw)) (is_reset row.id)
            (used_row env.now) (λ x. refl) s.resets found,
        ground arith,
      )

  -- The user whom the row of the token names has the new password, and no session that is not
  -- revoked.
  abbrev pub IsResetTo : ℕ → ℕ → AuthStore R → AuthStore R → Type 0
  IsResetTo raw hash s t =
      (row : PasswordResetRecord) × (find_reset (hash_opaque_token k raw) s ≡ some row)
      × (user : AuthUser) × (find_user_by_id row.user_id t ≡ some user)
      × (user.password_hash ≡ some hash)
      × AllRevoked row.user_id t

  IsReset-IsResetTo :
      (env : AuthEnv) (raw password : ℕ) (s t : AuthStore R)
      → IsReset env raw password s t
      → IsResetTo raw (k.argon2_hash env.salt password) s t
  unfolding find_user_by_id
  IsReset-IsResetTo env raw password s t (row, found, user, there, done) =
      let hash = k.argon2_hash env.salt password in
      subst (IsResetTo raw hash s) (sym done) (
        row,
        found,
        record user { password_hash = some hash },
        find-updated (is_user row.user_id) (λ w. record w { password_hash = some hash }) (λ x. refl)
            s.users there,
        refl,
        revoke-AllRevoked env.now row.user_id s.sessions,
      )

  -- A password reset that returns found the row of its token, and leaves the user whom that row
  -- names with the new password and with every session revoked. The token is refused from then on,
  -- whatever requests the auth and invitation services serve in between: a later reset with it
  -- changes nothing.
  pub reset_password_once :
      ⦃c : Counters R⦄ (env : AuthEnv) (raw password : ℕ) (s : AuthStore R) {v : Unit {0}}
      {t : AuthStore R}
      → reset_password k env raw password s ≡ (ok v, t)
      → (qs : List (AuthEnv × AuthRequest)) (env' : AuthEnv) (again : ℕ)
      → IsResetTo raw (k.argon2_hash env.salt password) s t
        × (reset_password k env' raw again (serve_all k qs t)
            ≡ (err invalid_or_expired_token, serve_all k qs t))
  reset_password_once env raw password s {v} {t} e qs env' again =
      let done = row-IsReset env raw password s _ refl e in
      (
        IsReset-IsResetTo env raw password s t done,
        IsUsed-refused env' raw again (serve_all k qs t) (
            serve_all_keeps (IsUsed-Stable (hash_opaque_token k raw)) k qs t
              (IsReset-IsUsed env raw password s t done)),
      )
