-- ===== src/Tests/Accounts.antt =====
-- Sessions, passwords and logins.
use kapis_receptionist.Auth.Requests.{serve_all, AuthRequest, forgot_request}
use kapis_receptionist.Auth.Counters.{CounterKey, attempts_key, lockout_key, Counters}
use kapis_receptionist.Prelude.{
  ℕ, ◌+◌, ◌-◌, ◌*◌, ◌/◌, ◌<◌, ◌≡◌, refl, Bool, true, false, none, some, List, [], ◌∷◌, arith, ◌==◌,
  if◌then◌else◌,
}
use kapis_receptionist.Auth.Lockout.{login_lockout, CounterLaws}
use kapis_receptionist.Auth.Rotation.{AllRevoked, rotated_token_replay}
use kapis_receptionist.Auth.Accounts.{LoginInput, reset_row, reset_password}
use kapis_receptionist.Auth.Tables.{
  Primitives, invalid_credentials, AuthStore, refresh_token_reuse_detected, PasswordResetRecord,
  AuthEnv, AuthUser, invalid_or_expired_token, account_locked, RefreshTokenRecord,
  invitation_created, invitation_mail,
}
use kapis_receptionist.Rbac.{owner, AccessTokenPayload, manager}
use kapis_receptionist.Auth.Users.{used_row, find_user_by_email}
use kapis_receptionist.Auth.Sessions.{
  session_row, rotate, RotatedSession, revoked_row, RequestMeta, replaced_row,
}
use kapis_receptionist.Auth.SingleUse.{IsResetTo, reset_password_once}
use kapis_receptionist.Tests.Fixtures.{books}
use kapis_receptionist.Auth.Login.{login}
use kapis_receptionist.Prelude.Action.{err, ok}
use kapis_receptionist.Auth.Invitations.{
  invitation_row, validate_and_consume, CreateInvitationInput, create_invitation, invited_manager,
}
use kapis_receptionist.Auth.InvitationLink.{invitation_link_valid}

pub record TestRedis : Type 0 where
  pub counts : CounterKey → ℕ
  pub deadline : CounterKey → ℕ

abbrev same_key : CounterKey → CounterKey → Bool
same_key (attempts_key a) (attempts_key b) = a == b
same_key (lockout_key a) (lockout_key b) = a == b
same_key a b = false

abbrev put : (CounterKey → ℕ) → CounterKey → ℕ → CounterKey → ℕ
put f key n x = if same_key key x then n else f x

abbrev redis_counters : Counters TestRedis
redis_counters = record {
  incr = λ now key r. (r.counts key + 1, record r { counts = put r.counts key (r.counts key + 1) });
  expire = λ now key seconds r. record r { deadline = put r.deadline key (now + seconds * 1000) };
  ttl = λ now key r. (r.deadline key - now) / 1000;
  set_ex = λ now key seconds r. record r { deadline = put r.deadline key (now + seconds * 1000) };
  del = λ key r. record { counts = put r.counts key 0; deadline = put r.deadline key 0 };
}

put-same : (f : CounterKey → ℕ) (key : CounterKey) (n : ℕ) → put f key n key ≡ n
put-same f (attempts_key a) n = ground arith
put-same f (lockout_key a) n = ground arith

redis_counters-CounterLaws : CounterLaws redis_counters (λ now key r. r.counts key)
redis_counters-CounterLaws = record {
  incr-count = λ now key r. refl;
  ttl-set_ex = λ now now' key seconds r later early.
      rw (put-same r.deadline key (now + seconds * 1000)) (omega arith);
  ttl-del = λ now email r. refl;
}

abbrev primitives : Primitives
primitives = record {
  hmac = λ key x. key + x;
  sha256 = λ x. x + 1;
  argon2_hash = λ salt x. x;
  argon2_verify = λ hash x. hash == x;
  jwt_sign = λ payload secret seconds. payload.sub;
  trim = λ x. x;
  to_lower_case = λ x. x;
  slugify = λ x. some x;
  salon_slug = 0;
  with_random_suffix = λ x n. x + n;
  refresh_pepper = 5;
  access_secret = 6;
  access_expires_in_seconds = 900;
  refresh_expires_in_seconds = 1000;
  email_verification_expires_in_seconds = 100;
  password_reset_expires_in_seconds = 100;
  invitation_expires_in_seconds = 100;
  attempt_window_seconds = 60;
  max_attempts = 1;
  lockout_seconds = 60;
}

abbrev auth_env : ℕ → ℕ → AuthEnv
auth_env now fresh = record {
  now = now;
  new_id = fresh;
  refresh_token = fresh;
  opaque_token = fresh;
  salt = fresh;
  slug_suffix = λ n. n;
  mail_sent = true;
}

abbrev someone : AuthUser
someone = record {
  id = 1;
  tenant_id = none;
  email = 7;
  password_hash = some 4;
  first_name = 0;
  last_name = 0;
  is_active = true;
  is_email_verified = true;
  last_login_at = none;
  created_at = 0;
  roles = owner ∷ [];
}

abbrev browser : RequestMeta
browser = record { user_agent = none; ip_address = none }

abbrev old_session : RefreshTokenRecord
old_session = session_row primitives (auth_env 0 20) 1 browser

abbrev open_reset : PasswordResetRecord
open_reset = reset_row primitives (auth_env 0 30) 1

abbrev accounts : AuthStore TestRedis
accounts = record {
  users = someone ∷ [];
  tenants = [];
  tenant_settings = [];
  seeded_roles = owner ∷ manager ∷ [];
  billing = books;
  sessions = old_session ∷ [];
  verifications = [];
  resets = open_reset ∷ [];
  invitations = [];
  audit = [];
  mails = [];
  redis = record { counts = λ key. 0; deadline = λ key. 0 };
}

abbrev after_rotation : AuthStore TestRedis
after_rotation = record accounts {
  sessions =
      session_row primitives (auth_env 10 21) 1 browser
      ∷ replaced_row 10 (some 21) old_session
      ∷ [];
}

abbrev rotated : RotatedSession
rotated = record {
  session = record { id = 21; raw_refresh_token = 21; expires_at = 1000010 };
  user_id = 1;
}

-- A password reset is asked for in between.
abbrev in_between : List (AuthEnv × AuthRequest)
in_between = (auth_env 20 40, forgot_request 7) ∷ []

rotated_token_replay_example :
    ((rotate primitives
        (auth_env 50 50)
        20
        browser
        (serve_all ⦃c = redis_counters⦄ primitives in_between after_rotation)).0
      ≡ err refresh_token_reuse_detected)
    × AllRevoked 1
        (rotate primitives
          (auth_env 50 50)
          20
          browser
          (serve_all ⦃c = redis_counters⦄ primitives in_between after_rotation)).1
unfolding rotate
rotated_token_replay_example =
    rotated_token_replay ⦃c = redis_counters⦄ primitives (auth_env 10 21) 20 browser accounts
      {r = rotated} {t = after_rotation} refl in_between (auth_env 50 50) browser

abbrev after_reset : AuthStore TestRedis
after_reset = record accounts {
  users = record someone { password_hash = some 9 } ∷ [];
  sessions = revoked_row 10 old_session ∷ [];
  resets = used_row 10 open_reset ∷ [];
}

reset_password_once_example :
    IsResetTo primitives 30 9 accounts after_reset
    × (reset_password primitives
          (auth_env 50 50)
          30
          8
          (serve_all ⦃c = redis_counters⦄ primitives in_between after_reset)
        ≡ (
          err invalid_or_expired_token,
          serve_all ⦃c = redis_counters⦄ primitives in_between after_reset,
        ))
unfolding reset_password
reset_password_once_example =
    reset_password_once primitives ⦃c = redis_counters⦄ (auth_env 10 21) 30 9 accounts
      {t = after_reset} refl in_between (auth_env 50 50) 8

abbrev wrong_login : LoginInput
wrong_login = record { email = 7; password = 3 }

abbrev right_login : LoginInput
right_login = record { email = 7; password = 4 }

abbrev after_failure : AuthStore TestRedis
after_failure =
    (login ⦃c = redis_counters⦄ primitives (auth_env 10 21) wrong_login browser accounts).1

login_lockout_example :
    ((login ⦃c = redis_counters⦄ primitives (auth_env 10 21) wrong_login browser accounts).0
      ≡ err invalid_credentials)
    × (n : ℕ) × (0 < n)
    × (login ⦃c = redis_counters⦄ primitives (auth_env 30000 22) right_login browser after_failure
        ≡ (err (account_locked n), after_failure))
unfolding find_user_by_email
login_lockout_example =
    login_lockout ⦃c = redis_counters⦄ redis_counters-CounterLaws primitives (auth_env 10 21)
      wrong_login browser accounts refl refl (omega arith) (auth_env 30000 22) right_login browser
      refl (omega arith) (omega arith)

abbrev invited : CreateInvitationInput
invited = record { email = 77; role = invited_manager }

abbrev inviter : AccessTokenPayload
inviter = record { sub = 1; roles = owner ∷ [] }

abbrev after_invitation : AuthStore TestRedis
after_invitation = record accounts {
  invitations = invitation_row primitives (auth_env 10 60) 2 inviter 77 manager ∷ [];
  audit = invitation_created 2 1 60 ∷ [];
  mails = invitation_mail 77 manager 60 ∷ [];
}

invitation_link_valid_example :
    validate_and_consume primitives (auth_env 100010 61) 60 after_invitation ≡ (
      ok (record { invitation_id = 60; tenant_id = 2; email = 77; role = manager }),
      after_invitation,
    )
unfolding create_invitation
invitation_link_valid_example =
    invitation_link_valid primitives (auth_env 10 60) 2 inviter invited accounts
      {i = invitation_row primitives (auth_env 10 60) 2 inviter 77 manager} {t = after_invitation}
      refl (auth_env 100010 61) (omega arith)
