-- ===== src/Auth/Users.antt =====
-- backend/src/modules/auth/infrastructure/prisma-user.repository.ts, prisma-tenant.repository.ts,
-- prisma-email-verification.repository.ts and prisma-password-reset.repository.ts.
use kapis_receptionist.Prelude.{
  ℕ, Bool, true, not, ◌&&◌, Option, some, ◌∷◌, ◌==◌, is_some, keep, find, update_where,
}
use kapis_receptionist.Auth.Tables.{
  AuthAction, EmailVerificationRecord, reset_hash_column, AuthTenant, row_not_found, Mail,
  PasswordResetRecord, AuthUser, unique_violation, email_column, mail_not_sent, AuthEnv,
  verification_hash_column, AuthStore,
}
use kapis_receptionist.Prelude.Action.{throw_if, gets, ◌>>=◌, pure, or_throw, modify, ◌>>◌}

abbrev pub has_email : ℕ → AuthUser → Bool
has_email email u = u.email == email

abbrev pub is_user : ℕ → AuthUser → Bool
is_user id u = u.id == id

abbrev pub is_verification : ℕ → EmailVerificationRecord → Bool
is_verification id v = v.id == id

abbrev pub is_reset : ℕ → PasswordResetRecord → Bool
is_reset id p = p.id == id

abbrev pub has_verification_hash : ℕ → EmailVerificationRecord → Bool
has_verification_hash h v = v.token_hash == h

abbrev pub has_reset_hash : ℕ → PasswordResetRecord → Bool
has_reset_hash h p = p.token_hash == h

abbrev pub is_open_verification_of : ℕ → EmailVerificationRecord → Bool
is_open_verification_of user_id v = v.user_id == user_id && not (is_some v.verified_at)

abbrev pub is_open_reset_of : ℕ → PasswordResetRecord → Bool
is_open_reset_of user_id p = p.user_id == user_id && not (is_some p.used_at)

abbrev pub used_row : ℕ → PasswordResetRecord → PasswordResetRecord
used_row now p = record p { used_at = some now }

abbrev pub verified_row : ℕ → EmailVerificationRecord → EmailVerificationRecord
verified_row now v = record v { verified_at = some now }

module _ {R : Type 0} where
  unfoldable pub find_user_by_email : ℕ → AuthStore R → Option AuthUser
  unfolding find
  find_user_by_email email s = find (has_email email) s.users

  unfoldable pub find_user_by_id : ℕ → AuthStore R → Option AuthUser
  unfolding find
  find_user_by_id id s = find (is_user id) s.users

  unfoldable pub find_tenant_by_id : ℕ → AuthStore R → Option AuthTenant
  unfolding find
  find_tenant_by_id id s = find (λ t. t.id == id) s.tenants

  -- `prisma.user.update({ where: { id }, data })`
  unfoldable pub update_user : ℕ → (AuthUser → AuthUser) → AuthAction R (Unit {0})
  unfolding ◌>>=◌ find_user_by_id update_where
  update_user id f = do
    found ← gets (find_user_by_id id)
    or_throw found row_not_found
    modify (λ s. record s { users = update_where (is_user id) f s.users })

  unfoldable pub update_last_login_at : ℕ → ℕ → AuthAction R (Unit {0})
  unfolding update_user
  update_last_login_at id instant = update_user id (λ u. record u { last_login_at = some instant })

  unfoldable pub mark_email_verified : ℕ → AuthAction R (Unit {0})
  unfolding update_user
  mark_email_verified id = update_user id (λ u. record u { is_email_verified = true })

  unfoldable pub update_password : ℕ → ℕ → AuthAction R (Unit {0})
  unfolding update_user
  update_password id hash = update_user id (λ u. record u { password_hash = some hash })

  -- `prisma.user.create`; the column `email` is unique.
  unfoldable pub create_user : AuthUser → AuthAction R AuthUser
  unfolding ◌>>=◌ find_user_by_email
  create_user row = do
    clash ← gets (find_user_by_email row.email)
    throw_if (is_some clash) (unique_violation email_column)
    modify (λ s. record s { users = row ∷ s.users })
    pure row

  unfoldable pub find_verification : ℕ → AuthStore R → Option EmailVerificationRecord
  unfolding find
  find_verification h s = find (has_verification_hash h) s.verifications

  unfoldable pub create_verification : EmailVerificationRecord → AuthAction R (Unit {0})
  unfolding ◌>>=◌ find_verification
  create_verification row = do
    clash ← gets (find_verification row.token_hash)
    throw_if (is_some clash) (unique_violation verification_hash_column)
    modify (λ s. record s { verifications = row ∷ s.verifications })

  unfoldable pub mark_verified : ℕ → ℕ → AuthAction R (Unit {0})
  unfolding ◌>>=◌ find update_where
  mark_verified now id = do
    found ← gets (λ s. find (is_verification id) s.verifications)
    or_throw found row_not_found
    modify (λ s. record s {
      verifications = update_where (is_verification id) (verified_row now) s.verifications;
    })

  unfoldable pub invalidate_active_verifications : ℕ → AuthAction R (Unit {0})
  unfolding ◌>>=◌ keep
  invalidate_active_verifications user_id = modify (λ s. record s {
    verifications = keep (λ v. not (is_open_verification_of user_id v)) s.verifications;
  })

  unfoldable pub find_reset : ℕ → AuthStore R → Option PasswordResetRecord
  unfolding find
  find_reset h s = find (has_reset_hash h) s.resets

  unfoldable pub create_reset : PasswordResetRecord → AuthAction R (Unit {0})
  unfolding ◌>>=◌ find_reset
  create_reset row = do
    clash ← gets (find_reset row.token_hash)
    throw_if (is_some clash) (unique_violation reset_hash_column)
    modify (λ s. record s { resets = row ∷ s.resets })

  unfoldable pub mark_used : ℕ → ℕ → AuthAction R (Unit {0})
  unfolding ◌>>=◌ find update_where
  mark_used now id = do
    found ← gets (λ s. find (is_reset id) s.resets)
    or_throw found row_not_found
    modify (λ s. record s { resets = update_where (is_reset id) (used_row now) s.resets })

  unfoldable pub invalidate_active_resets : ℕ → AuthAction R (Unit {0})
  unfolding ◌>>=◌ keep
  invalidate_active_resets user_id =
      modify (λ s. record s { resets = keep (λ p. not (is_open_reset_of user_id p)) s.resets })

  -- `sendEmail`: a mail that the server does not take throws.
  unfoldable pub send_email : AuthEnv → Mail → AuthAction R (Unit {0})
  unfolding ◌>>=◌
  send_email env mail = do
    throw_if (not env.mail_sent) mail_not_sent
    modify (λ s. record s { mails = mail ∷ s.mails })
