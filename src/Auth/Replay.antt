-- ===== src/Auth/Replay.antt =====
-- A refresh token that is presented again: backend/src/modules/auth/application/session.service.ts.
use kapis_receptionist.Auth.Requests.{Stable}
use kapis_receptionist.Prelude.Action.{Keeps, keeps_rules, Keeps-modify}
use kapis_receptionist.Prelude.{
  find-update_where, ap, ℕ, ◌≡◌, refl, ap, Bool, true, Option, none, some, ◌∷◌, arith, ◌==◌,
  if◌then◌else◌, is_some, find, update_where,
}
use kapis_receptionist.Auth.Sessions.{
  has_hash, revoke_all_active_for_user, find_by_hash, replaced_row, create_session, revoked_row,
  revoke_session,
}
use kapis_receptionist.Auth.Tables.{RefreshTokenRecord, AuthStore}
use kapis_receptionist.Auth.Users.{
  create_reset, create_verification, invalidate_active_verifications, mark_used, mark_verified,
  invalidate_active_resets,
}

-- The token with this hash was rotated by a session of the user.
abbrev pub IsReplaced : {R : Type 0} → ℕ → ℕ → AuthStore R → Type 0
IsReplaced h u s =
    (r : RefreshTokenRecord) × (find_by_hash h s ≡ some r)
    × (is_some r.revoked_at ≡ true)
    × (is_some r.replaced_by_session_id ≡ true)
    × (r.user_id ≡ u)

-- A revocation leaves the hash, the user and a successor as they are.
abbrev pub Revokes : (RefreshTokenRecord → RefreshTokenRecord) → RefreshTokenRecord → Type 0
Revokes f r =
    (is_some (f r).revoked_at ≡ true)
    × (is_some r.replaced_by_session_id ≡ true → is_some (f r).replaced_by_session_id ≡ true)
    × ((f r).user_id ≡ r.user_id)
    × ((f r).refresh_token_hash ≡ r.refresh_token_hash)

replaced_row-Revokes :
    (now : ℕ) (next : Option ℕ) (r : RefreshTokenRecord) → Revokes (replaced_row now next) r
replaced_row-Revokes now none r = (refl, λ e. e, refl, refl)
replaced_row-Revokes now (some x) r = (refl, λ e. refl, refl, refl)

revoked_row-Revokes : (now : ℕ) (r : RefreshTokenRecord) → Revokes (revoked_row now) r
revoked_row-Revokes now r = (refl, λ e. e, refl, refl)

Revokes-hash :
    (h : ℕ) (f : RefreshTokenRecord → RefreshTokenRecord) (r : RefreshTokenRecord)
    → Revokes f r
    → has_hash h (f r) ≡ has_hash h r
Revokes-hash h f r (a, b, c, d) = ap (λ y. y == h) d

module _ {R : Type 0} (h u : ℕ) where
  IsReplaced-cons :
      (row : RefreshTokenRecord) (s : AuthStore R)
      → find_by_hash row.refresh_token_hash s ≡ none
      → IsReplaced h u s
      → IsReplaced h u (record s { sessions = row ∷ s.sessions })
  unfolding find_by_hash find
  IsReplaced-cons row s free (r, found, revoked, replaced, same) =
      (r, ground arith, revoked, replaced, same)

  created-IsReplaced :
      (row : RefreshTokenRecord) (s : AuthStore R) (o : Option RefreshTokenRecord)
      → find_by_hash row.refresh_token_hash s ≡ o
      → IsReplaced h u s
      → IsReplaced h u (create_session row s).1
  unfolding create_session
  created-IsReplaced row s none e p = rw e (IsReplaced-cons row s e p)
  created-IsReplaced row s (some x) e p = rw e p

  create_session-IsReplaced :
      (row : RefreshTokenRecord) → Keeps {S = AuthStore R} (IsReplaced h u) (create_session row)
  create_session-IsReplaced row = record {
    at = λ s p. created-IsReplaced row s (find_by_hash row.refresh_token_hash s) refl p;
  }

  pub update-IsReplaced :
      (q : RefreshTokenRecord → Bool) (f : RefreshTokenRecord → RefreshTokenRecord)
      (s : AuthStore R)
      → ((r : RefreshTokenRecord) → Revokes f r)
      → IsReplaced h u s
      → IsReplaced h u (record s { sessions = update_where q f s.sessions })
  unfolding find_by_hash
  update-IsReplaced q f s facts (r, found, revoked, replaced, same) =
      let (fr, frep, fu, fh) = facts r in
      (
        (if q r then f r else r),
        find-update_where (has_hash h) q f (λ x. Revokes-hash h f x (facts x)) s.sessions found,
        ground arith,
        ground arith,
        ground arith,
      )

  revoke_session-IsReplaced :
      (now id : ℕ) (next : Option ℕ)
      → Keeps {S = AuthStore R} (IsReplaced h u) (revoke_session now id next)
  unfolding revoke_session
  revoke_session-IsReplaced now id next =
      search (keeps_rules, Keeps-modify, update-IsReplaced, replaced_row-Revokes) depth 12

  revoke_all-IsReplaced :
      (now user_id : ℕ)
      → Keeps {S = AuthStore R} (IsReplaced h u) (revoke_all_active_for_user now user_id)
  unfolding revoke_all_active_for_user
  revoke_all-IsReplaced now user_id =
      search (keeps_rules, Keeps-modify, update-IsReplaced, revoked_row-Revokes) depth 12

  pub IsReplaced-Stable : Stable {R = R} (IsReplaced h u)
  unfolding find_by_hash create_verification mark_verified invalidate_active_verifications
      create_reset mark_used invalidate_active_resets
  IsReplaced-Stable = record {
    keeps_users = λ s x p. p;
    keeps_tenants = λ s x p. p;
    keeps_settings = λ s x p. p;
    keeps_billing = λ s x p. p;
    keeps_invitations = λ s x p. p;
    keeps_audit = λ s x p. p;
    keeps_mails = λ s x p. p;
    keeps_redis = λ s x p. p;
    session_created = create_session-IsReplaced;
    session_revoked = revoke_session-IsReplaced;
    all_revoked = revoke_all-IsReplaced;
    verification_created = λ row. search (keeps_rules, Keeps-modify) depth 12;
    verification_marked = λ now id. search (keeps_rules, Keeps-modify) depth 12;
    verifications_invalidated = λ id. search (keeps_rules, Keeps-modify) depth 12;
    reset_created = λ row. search (keeps_rules, Keeps-modify) depth 12;
    reset_marked = λ now id. search (keeps_rules, Keeps-modify) depth 12;
    resets_invalidated = λ id. search (keeps_rules, Keeps-modify) depth 12;
  }
