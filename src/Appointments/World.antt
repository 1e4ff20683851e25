-- ===== src/Appointments/World.antt =====
-- The state that a booking request reads and writes, its errors, and the entities that it returns.
use kapis_receptionist.Rows.{LineRow, AppointmentRow, AppointmentStatus, ActorType}
use kapis_receptionist.Billing.Entitlement.{BillingStore, BillingError}
use kapis_receptionist.Directory.{Directory}
use kapis_receptionist.Prelude.{ℕ, String, Option, List, Bool}

pub data HistoryAction : Type 0 where
  created_action cancelled_action rescheduled_action : HistoryAction

-- The `newState` JSON of a history row.
pub data NewState : Type 0 where
  booked : AppointmentStatus → ℕ → NewState
  cancelled_state : ℕ → Option String → NewState
  rescheduled_to : ℕ → NewState

-- A row of `appointment_status_history`; `previous` is `previousState.rescheduledFromAppointmentId`.
pub record HistoryRow : Type 0 where
  pub tenant_id : ℕ
  pub appointment_id : ℕ
  pub action : HistoryAction
  pub previous : Option ℕ
  pub new_state : NewState
  pub actor_type : ActorType
  pub actor_id : Option ℕ

-- The action of an audit row, with its metadata. A conversation is recorded for an AI actor.
pub data AuditEvent : Type 0 where
  appointment_created : ℕ → ℕ → Option ℕ → AuditEvent
  appointment_notes_updated : AuditEvent
  appointment_cancelled : Option String → Option ℕ → AuditEvent
  appointment_rescheduled : ℕ → ℕ → Option ℕ → AuditEvent
  appointment_deleted : AuditEvent

pub record AuditRow : Type 0 where
  pub tenant_id : ℕ
  pub entity_id : ℕ
  pub event : AuditEvent
  pub actor_type : ActorType
  pub actor_id : Option ℕ

-- `K` is the keyspace of Redis.
pub record World (K : Type 0) : Type 0 where
  pub directory : Directory
  pub billing : BillingStore
  pub appointments : List AppointmentRow
  pub lines : List LineRow
  pub history : List HistoryRow
  pub audit : List AuditRow
  pub audit_accepts : AuditRow → Bool  -- whether the insert of an audit row succeeds
  pub redis : K

pub data InvalidEmployee : Type 0 where
  not_found_in_tenant not_active not_eligible_for_service : InvalidEmployee

pub data BookingError : Type 0 where
  empty_service_lines : BookingError
  invalid_customer_reference : ℕ → BookingError
  invalid_service_reference : ℕ → BookingError
  invalid_employee_reference : ℕ → InvalidEmployee → BookingError
  invalid_status_transition : AppointmentStatus → BookingError
  no_update_fields_provided : BookingError
  slot_no_longer_available : Option ℕ → BookingError
  staff_scope_forbidden : BookingError
  tenant_resource_not_found : BookingError
  billing_error : BillingError → BookingError
  exclusion_violation : BookingError  -- Postgres: excl_appointment_services_employee_time
  no_such_record : BookingError  -- Prisma: an update by a unique key that finds no row
  redis_unavailable : BookingError
  audit_write_failed : BookingError  -- the insert of the audit row threw
  type_error : BookingError  -- a property of `undefined`

-- An appointment with its lines, as `include: { services: true }` reads it.
pub record AppointmentEntity : Type 0 where
  pub row : AppointmentRow
  pub services : List LineRow
