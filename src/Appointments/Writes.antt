-- ===== src/Appointments/Writes.antt =====
-- What the methods of backend/src/modules/appointments/infrastructure/prisma-appointment.repository.ts
-- keep, from what the single writes keep.
use kapis_receptionist.Prelude.Action.{Keeps, keeps_rules, Keeps-modify, ◌>>=◌, Keeps-pure}
use kapis_receptionist.Prelude.{
  ℕ, ◌≡◌, inl, inr, false, List, [], ◌∷◌, Bool-cases, any, update_where, String, Option,
}
use kapis_receptionist.Billing.Entitlement.{BillingStore}
use kapis_receptionist.Appointments.Tables.{
  excludes, is_line_of, LineInput, CreateAppointmentInput, line_create_data,
}
use kapis_receptionist.Appointments.World.{AuditRow, HistoryAction, HistoryRow, World}
use kapis_receptionist.Rows.{Env, AppointmentRow, LineRow, ActorType}
use kapis_receptionist.Appointments.Repository.{
  insert_line, insert_lines, create, insert_appointment, insert_history, cancel, update_appointment,
  update_notes, reschedule, unblock_lines, soft_delete,
}

-- A predicate that every write to the booking tables keeps, a line being written only where the
-- exclusion constraint lets it stand.
pub record Stable {K : Type 0} (P : World K → Type 0) : Type 0 where
  pub appointments :
      (w : World K) (rows : List AppointmentRow) → P w → P (record w { appointments = rows })
  pub insert :
      (w : World K) (l : LineRow)
      → any (excludes l) w.lines ≡ false
      → P w
      → P (record w { lines = l ∷ w.lines })
  pub unblock :
      (w : World K) (id : ℕ)
      → P w
      → P (record w {
        lines = update_where (is_line_of id) (λ l. record l { is_blocking = false }) w.lines;
      })
  pub history : (w : World K) (rows : List HistoryRow) → P w → P (record w { history = rows })
  pub audit : (w : World K) (rows : List AuditRow) → P w → P (record w { audit = rows })
  pub billing : (w : World K) (b : BillingStore) → P w → P (record w { billing = b })

insert_line_result :
    {K : Type 0} {P : World K → Type 0} (st : Stable P) (l : LineRow) (w : World K)
    → P w
    → P (insert_line l w).1
unfolding insert_line ◌>>=◌
insert_line_result st l w h = elim (Bool-cases (any (excludes l) w.lines)) [
  | inl e ↦ rw e h
  | inr e ↦ rw e (st.insert w l e h)
]

module _ {K : Type 0} {P : World K → Type 0} (st : Stable P) where
  pub Keeps-insert_line : (l : LineRow) → Keeps P (insert_line l)
  Keeps-insert_line l = record { at = insert_line_result st l }

  pub Keeps-insert_lines :
      (tenant id : ℕ) (ls : List LineInput) → Keeps P (insert_lines tenant id ls)
  unfolding insert_lines
  Keeps-insert_lines tenant id [] = Keeps-pure tt
  Keeps-insert_lines tenant id (l ∷ ls) = search (
    keeps_rules,
    Keeps-insert_line (line_create_data tenant id l),
    Keeps-insert_lines tenant id ls,
  )

  pub Keeps-insert_history : (h : HistoryRow) → Keeps P (insert_history h)
  unfolding insert_history
  Keeps-insert_history h = Keeps-modify _ λ w k. st.history w _ k

  pub Keeps-insert_appointment :
      (env : Env) (tenant : ℕ) (i : CreateAppointmentInput)
      → Keeps P (insert_appointment env tenant i)
  unfolding insert_appointment
  Keeps-insert_appointment env tenant i =
      search (keeps_rules, Keeps-modify, st.appointments, Keeps-insert_lines)

  pub Keeps-create :
      (env : Env) (tenant : ℕ) (i : CreateAppointmentInput) (a : HistoryAction)
      → Keeps P (create env tenant i a)
  unfolding create
  Keeps-create env tenant i a = search (keeps_rules, Keeps-insert_appointment, Keeps-insert_history)

  pub Keeps-update_appointment :
      (tenant id : ℕ) (f : AppointmentRow → AppointmentRow)
      → Keeps P (update_appointment tenant id f)
  unfolding update_appointment
  Keeps-update_appointment tenant id f = search (keeps_rules, Keeps-modify, st.appointments)

  pub Keeps-unblock_lines : (id : ℕ) → Keeps P (unblock_lines id)
  unfolding unblock_lines
  Keeps-unblock_lines id = Keeps-modify _ λ w k. st.unblock w id k

  pub Keeps-update_notes : (tenant id : ℕ) (notes : String) → Keeps P (update_notes tenant id notes)
  unfolding update_notes
  Keeps-update_notes tenant id notes = search (keeps_rules, Keeps-update_appointment)

  pub Keeps-cancel :
      (env : Env) (tenant id : ℕ) (reason : Option String) (t : ActorType) (a : Option ℕ)
      → Keeps P (cancel env tenant id reason t a)
  unfolding cancel
  Keeps-cancel env tenant id reason t a =
      search (keeps_rules, Keeps-update_appointment, Keeps-unblock_lines, Keeps-insert_history)

  pub Keeps-reschedule :
      (env : Env) (tenant id : ℕ) (i : CreateAppointmentInput)
      → Keeps P (reschedule env tenant id i)
  unfolding reschedule
  Keeps-reschedule env tenant id i =
      search
        (
          keeps_rules, Keeps-insert_appointment, Keeps-update_appointment, Keeps-unblock_lines,
          Keeps-insert_history,
        )
        depth 20

  pub Keeps-soft_delete : (env : Env) (tenant id : ℕ) → Keeps P (soft_delete env tenant id)
  unfolding soft_delete
  Keeps-soft_delete env tenant id =
      search (keeps_rules, Keeps-update_appointment, Keeps-unblock_lines)
