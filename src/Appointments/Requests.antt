-- ===== src/Appointments/Requests.antt =====
-- The requests that change bookings, and a run of several of them, one after the other:
-- backend/src/modules/appointments/application/appointments.service.ts.
use kapis_receptionist.Prelude.Action.{Keeps, ◌>>◌, ◌>>=◌, pure, keeps_rules}
use kapis_receptionist.Prelude.{ℕ, String, Option, List, [], ◌∷◌}
use kapis_receptionist.Appointments.Kept.{
  Keeps-get_appointment_for_tenant, Keeps-cancel_as, Keeps-reschedule_as,
  Keeps-update_appointment_notes, Keeps-create_as, Keeps-delete_appointment,
  Keeps-get_appointment_for_actor,
}
use kapis_receptionist.Appointments.Service.{
  cancel_appointment, AiActorContext, reschedule_appointment, update_appointment_notes,
  insert_booking, CreateAppointmentRequest, Author, cancel_appointment_for_ai, create_appointment,
  create_appointment_for_ai, delete_appointment, move_booking, reschedule_appointment_for_ai,
  RescheduleAppointmentRequest,
}
use kapis_receptionist.Appointments.World.{World, AppointmentEntity}
use kapis_receptionist.Appointments.Writes.{Stable}
use kapis_receptionist.Rbac.{AccessTokenPayload}
use kapis_receptionist.Appointments.Tables.{LineInput}
use kapis_receptionist.Locking.Keyspace.{Redis}
use kapis_receptionist.Rows.{Env}
use kapis_receptionist.Appointments.Locks.{with_employee_locks}
use kapis_receptionist.Appointments.Repository.{Booking}

pub data Request : Type 0 where
  create_request : Env → ℕ → AccessTokenPayload → CreateAppointmentRequest → Request
  ai_create_request : Env → ℕ → CreateAppointmentRequest → AiActorContext → Request
  notes_request : ℕ → ℕ → AccessTokenPayload → Option String → Request
  cancel_request : Env → ℕ → ℕ → AccessTokenPayload → Option String → Request
  ai_cancel_request : Env → ℕ → ℕ → Option String → AiActorContext → Request
  reschedule_request : Env → ℕ → ℕ → AccessTokenPayload → RescheduleAppointmentRequest → Request
  ai_reschedule_request : Env → ℕ → ℕ → RescheduleAppointmentRequest → AiActorContext → Request
  delete_request : Env → ℕ → ℕ → AccessTokenPayload → Request

module _ {K : Type 0} ⦃r : Redis K⦄ where
  -- A request, without the body of its response.
  unfoldable pub handle : Request → Booking K (Unit {0})
  unfolding create_appointment create_appointment_for_ai update_appointment_notes cancel_appointment
      cancel_appointment_for_ai reschedule_appointment reschedule_appointment_for_ai
      delete_appointment ◌>>=◌
  handle (create_request env tenant actor q) = create_appointment env tenant actor q >> pure tt
  handle (ai_create_request env tenant q ai) = create_appointment_for_ai env tenant q ai >> pure tt
  handle (notes_request tenant id actor notes) =
      update_appointment_notes tenant id actor notes >> pure tt
  handle (cancel_request env tenant id actor reason) =
      cancel_appointment env tenant id actor reason >> pure tt
  handle (ai_cancel_request env tenant id reason ai) =
      cancel_appointment_for_ai env tenant id reason ai >> pure tt
  handle (reschedule_request env tenant id actor q) =
      reschedule_appointment env tenant id actor q >> pure tt
  handle (ai_reschedule_request env tenant id q ai) =
      reschedule_appointment_for_ai env tenant id q ai >> pure tt
  handle (delete_request env tenant id actor) = delete_appointment env tenant id actor

  -- The state that a run of requests leaves, whether each succeeds or fails.
  unfoldable pub serve_all : List Request → World K → World K
  unfolding handle
  serve_all [] w = w
  serve_all (q ∷ qs) w = serve_all qs (handle q w).1

-- What the writes and the work under the locks keep, every run of requests keeps.
module _ {K : Type 0} ⦃r : Redis K⦄ {P : World K → Type 0} (st : Stable P)
    (insert_locked : (env : Env) (tenant : ℕ) (author : Author) (q : CreateAppointmentRequest)
        (ls : List LineInput)
      → Keeps P (with_employee_locks env tenant ls (insert_booking env tenant author q ls)))
    (move_locked : (env : Env) (tenant id : ℕ) (author : Author) (a : AppointmentEntity)
        (ls : List LineInput)
      → Keeps P (with_employee_locks env tenant ls (move_booking env tenant id author a ls))) where
  Keeps-handle : (q : Request) → Keeps P (handle q)
  unfolding handle create_appointment create_appointment_for_ai cancel_appointment
      cancel_appointment_for_ai reschedule_appointment reschedule_appointment_for_ai
  Keeps-handle (create_request env tenant actor q) =
      search (keeps_rules, Keeps-create_as, insert_locked)
  Keeps-handle (ai_create_request env tenant q ai) =
      search (keeps_rules, Keeps-create_as, insert_locked)
  Keeps-handle (notes_request tenant id actor notes) =
      search (keeps_rules, Keeps-update_appointment_notes)
  Keeps-handle (cancel_request env tenant id actor reason) =
      search (keeps_rules, Keeps-get_appointment_for_actor, Keeps-cancel_as)
  Keeps-handle (ai_cancel_request env tenant id reason ai) =
      search (keeps_rules, Keeps-get_appointment_for_tenant, Keeps-cancel_as)
  Keeps-handle (reschedule_request env tenant id actor q) =
      search (keeps_rules, Keeps-get_appointment_for_actor, Keeps-reschedule_as, move_locked)
  Keeps-handle (ai_reschedule_request env tenant id q ai) =
      search (keeps_rules, Keeps-get_appointment_for_tenant, Keeps-reschedule_as, move_locked)
  Keeps-handle (delete_request env tenant id actor) =
      Keeps-delete_appointment st env tenant id actor

  pub serve_all-keeps : (qs : List Request) (w : World K) → P w → P (serve_all qs w)
  unfolding serve_all
  serve_all-keeps [] w h = h
  serve_all-keeps (q ∷ qs) w h = serve_all-keeps qs (handle q w).1 ((Keeps-handle q).at w h)
