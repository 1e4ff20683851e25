-- ===== src/Tests/Fixtures.antt =====
-- A keyspace of Redis as a function, and a small salon.
use kapis_receptionist.Directory.{active, Directory, Service, Employee}
use kapis_receptionist.Directory.Settings.{end}
use kapis_receptionist.Prelude.{
  ℕ, ◌+◌, ◌≡◌, refl, ◌≢◌, true, false, Option, none, some, [], ◌∷◌, if◌then◌else◌,
}
use kapis_receptionist.Rows.{Env}
use kapis_receptionist.Billing.Entitlement.{BillingStore, Plan}
use kapis_receptionist.Rbac.{owner, AccessTokenPayload}
use kapis_receptionist.Locking.Keyspace.{
  SetReply, Redis, stored, refused, is_employee_key, IsStored, failed,
}
use kapis_receptionist.Appointments.World.{World}
use kapis_receptionist.Appointments.Service.{CreateAppointmentRequest}

abbrev pub Keys : Type 0
Keys = ℕ → ℕ → Option ℕ

abbrev put : ℕ → ℕ → ℕ → Keys → Keys
put t e token k u f = if is_employee_key t e u f then some token else k u f

abbrev set_if_free : Option ℕ → ℕ → ℕ → ℕ → Keys → SetReply × Keys
set_if_free none t e token k = (stored, put t e token k)
set_if_free (some held) t e token k = (refused, k)

pub set-stored :
    (o : Option ℕ) (t e token : ℕ) (k : Keys)
    → k t e ≡ o
    → (set_if_free o t e token k).0 ≡ stored
    → IsStored t e token k (set_if_free o t e token k).1
set-stored none t e token k free h = record { was_free = free; stored_only = λ u f. refl }
set-stored (some held) t e token k free h = cc

pub set-refused :
    (o : Option ℕ) (t e token : ℕ) (k : Keys)
    → (set_if_free o t e token k).0 ≡ refused
    → (u f : ℕ) → (set_if_free o t e token k).1 u f ≡ k u f
set-refused none t e token k h u f = cc
set-refused (some held) t e token k h u f = refl

pub set-answered :
    (o : Option ℕ) (t e token : ℕ) (k : Keys) → (set_if_free o t e token k).0 ≢ failed
set-answered none t e token k h = cc
set-answered (some held) t e token k h = cc

instance unfoldable pub keys_redis : Redis Keys
keys_redis = record {
  get = λ t e k. k t e;
  set_nx = λ t e token k. set_if_free (k t e) t e token k;
  delete = λ t e k u f. if is_employee_key t e u f then none else k u f;
  runs = λ k. true;
  get-stored = λ t e token k. set-stored (k t e) t e token k refl;
  get-refused = λ t e token k. set-refused (k t e) t e token k;
  get-failed = λ t e token k h. absurd (set-answered (k t e) t e token k h);
  get-delete = λ t e u f k. refl;
}

pub keys_run : (k : Keys) → keys_redis.runs k ≡ true
unfolding keys_redis
keys_run k = refl

pub keys_answer : (t e v : ℕ) (k : Keys) → (keys_redis.set_nx t e v k).0 ≢ failed
unfolding keys_redis
keys_answer t e v k = set-answered (k t e) t e v k

abbrev pub anna : Employee
anna = record {
  id = 7;
  tenant_id = 1;
  user_id = some 70;
  first_name = "Anna";
  last_name = "Ek";
  status = active;
  deleted = false;
}

abbrev pub haircut : Service
haircut = record {
  id = 3;
  tenant_id = 1;
  name = "Haircut";
  duration_minutes = 30;
  buffer_time_minutes = 10;
  price_cents = 4500;
  currency = "EUR";
  deleted = false;
}

-- Thursdays from 09:00 to 10:00.
abbrev pub salon : Directory
salon = record {
  employees = anna ∷ [];
  employee_services = record { tenant_id = 1; employee_id = 7; service_id = 3 } ∷ [];
  services = haircut ∷ [];
  customers = record { id = 9; tenant_id = 1; deleted = false } ∷ [];
  business_hours =
      record { tenant_id = 1; day_of_week = 4; start_time = 540; end_time = 600; is_closed = false }
      ∷ [];
  holidays = [];
  working_hours =
      record {
        tenant_id = 1;
        employee_id = 7;
        day_of_week = 4;
        start_time = 540;
        end_time = 600;
        is_active = true;
      }
      ∷ [];
  time_off = [];
  business_settings = λ t. end;
}

abbrev pub starter : Plan
starter = record {
  stripe_price_id = 11;
  id = 2;
  monthly_price_cents = 0;
  trial_days = 14;
  max_staff = some 3;
  max_appointments_per_month = some 100;
  max_messages_per_month = some 500;
  max_storage_mb = none;
  is_active = true;
}

abbrev pub books : BillingStore
books = record { plans = starter ∷ []; subscriptions = [] }

abbrev pub open_salon : World Keys
open_salon = record {
  directory = salon;
  billing = books;
  appointments = [];
  lines = [];
  history = [];
  audit = [];
  audit_accepts = λ a. true;
  redis = λ t e. none;
}

abbrev pub env : Env
env = record { now = 0; new_id = 50; token = λ e. e + 100 }

abbrev pub owner_token : AccessTokenPayload
owner_token = record { sub = 60; roles = owner ∷ [] }

-- 09:00 of the second Thursday.
abbrev pub nine : ℕ
nine = 637200000

abbrev pub booking : CreateAppointmentRequest
booking = record {
  customer_id = 9;
  start_time = nine;
  services = record { service_id = 3; employee_id = 7 } ∷ [];
  notes = none;
}
