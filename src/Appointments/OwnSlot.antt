-- ===== src/Appointments/OwnSlot.antt =====
-- A reschedule to a time that is still blocked: `reschedule` of
-- backend/src/modules/appointments/infrastructure/prisma-appointment.repository.ts.
use kapis_receptionist.Prelude.Action.{err, ◌>>=◌, >>=-err}
use kapis_receptionist.Prelude.{ℕ, ◌≡◌, refl, true, some, List, ◌∷◌, any}
use kapis_receptionist.Appointments.Repository.{
  insert_lines, reschedule, insert_line, insert_appointment,
}
use kapis_receptionist.Appointments.World.{exclusion_violation, World, BookingError}
use kapis_receptionist.Appointments.Tables.{
  CreateAppointmentInput, excludes, new_row, line_create_data, LineInput,
}
use kapis_receptionist.Rows.{Env}
use kapis_receptionist.Appointments.BackToBack.{insert_line-clash}

module _ {K : Type 0} where
  insert_lines-clash :
      (tenant id : ℕ) (l : LineInput) (ls : List LineInput) (w : World K)
      → any (excludes (line_create_data tenant id l)) w.lines ≡ true
      → insert_lines tenant id (l ∷ ls) w ≡ (err exclusion_violation, w)
  unfolding insert_lines
  insert_lines-clash tenant id l ls w h =
      >>=-err (insert_line (line_create_data tenant id l)) _ w
        (insert_line-clash (line_create_data tenant id l) w h)

  insert_appointment-clash :
      (env : Env) (tenant : ℕ) (i : CreateAppointmentInput) (w : World K)
      → ((v : World K)
          → v.lines ≡ w.lines
          → insert_lines tenant env.new_id i.lines v ≡ (err exclusion_violation, v))
      → (t : World K) × (insert_appointment env tenant i w ≡ (err exclusion_violation, t))
  unfolding insert_appointment ◌>>=◌
  insert_appointment-clash env tenant i w fails =
      let v : World K = record w { appointments = new_row env tenant i ∷ w.appointments } in
      (v, rw (fails v refl) refl)

  reschedule_refused :
      (env : Env) (tenant id : ℕ) (i : CreateAppointmentInput) (w : World K) {e : BookingError}
      {t : World K}
      → insert_appointment env tenant (record i { rescheduled_from = some id }) w ≡ (err e, t)
      → reschedule env tenant id i w ≡ (err e, w)
  unfolding reschedule
  reschedule_refused env tenant id i w h = rw h refl

  -- A reschedule whose first line overlaps a stored line of the same employee that blocks, be it a
  -- line of the appointment that is moved, is refused by the exclusion constraint, and leaves the
  -- state as it was.
  pub reschedule_into_own_slot :
      (env : Env) (tenant id : ℕ) (i : CreateAppointmentInput) (l : LineInput) (ls : List LineInput)
      (w : World K)
      → i.lines ≡ l ∷ ls
      → any (excludes (line_create_data tenant env.new_id l)) w.lines ≡ true
      → reschedule env tenant id i w ≡ (err exclusion_violation, w)
  reschedule_into_own_slot env tenant id i l ls w lines h =
      let (t, refusal) =
        insert_appointment-clash env tenant (record i { rescheduled_from = some id }) w
          (λ v same. rw lines (insert_lines-clash tenant env.new_id l ls v (rw same h))) in
      reschedule_refused env tenant id i w refusal
