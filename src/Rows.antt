-- ===== src/Rows.antt =====
-- The tables that bookings are kept in: `Appointment`, `AppointmentService`, `AppointmentStatusHistory`
-- and `AuditLog` of backend/prisma/schema.prisma, without the columns that no service reads.
use kapis_receptionist.Prelude.{ℕ, Bool, Option, String}

pub data AppointmentStatus : Type 0 where
  pending confirmed rescheduled cancelled completed no_show : AppointmentStatus

pub AppointmentStatus-discrete : Discrete AppointmentStatus
AppointmentStatus-discrete = hlevel

pub data ActorType : Type 0 where
  user ai customer system : ActorType

pub data TenantStatus : Type 0 where
  trial_status active_status past_due_status suspended_status cancelled_status : TenantStatus

-- One service line of an appointment, a row of `appointment_services`.
pub record LineRow : Type 0 where
  pub tenant_id : ℕ
  pub appointment_id : ℕ
  pub service_id : ℕ
  pub employee_id : ℕ
  pub service_name_snapshot : String
  pub duration_minutes_snapshot : ℕ
  pub price_cents_snapshot : ℕ
  pub buffer_minutes_snapshot : ℕ
  pub sequence_order : ℕ
  pub start_time : ℕ
  pub end_time : ℕ
  pub blocked_until : ℕ
  pub is_blocking : Bool

pub record AppointmentRow : Type 0 where
  pub id : ℕ
  pub tenant_id : ℕ
  pub customer_id : ℕ
  pub employee_id : ℕ
  pub status : AppointmentStatus
  pub start_time : ℕ
  pub end_time : ℕ
  pub total_price_cents : ℕ
  pub currency : String
  pub notes : Option String
  pub cancellation_reason : Option String
  pub cancelled_at : Option ℕ
  pub rescheduled_from : Option ℕ
  pub deleted_at : Option ℕ

-- What one request draws from outside: the clock, the identifier that the database generates for a
-- row that it inserts, and the random lock tokens, one for each employee.
pub record Env : Type 0 where
  pub now : ℕ
  pub new_id : ℕ
  pub token : ℕ → ℕ
