-- ===== src/Appointments/BackToBack.antt =====
-- Two consecutive lines of one appointment for the same employee, against the exclusion constraint:
-- `create` of backend/src/modules/appointments/infrastructure/prisma-appointment.repository.ts.
use kapis_receptionist.Prelude.Action.{>>=-err, >>=-ok, ok, err, ◌>>=◌}
use kapis_receptionist.Prelude.{
  ℕ, ◌<◌, ◌≡◌, refl, ◌∙◌, inl, inr, true, false, List, ◌∷◌, arith, Bool-cases, any,
}
use kapis_receptionist.Appointments.Tables.{
  LineInput, line_create_data, new_row, excludes, CreateAppointmentInput,
}
use kapis_receptionist.Appointments.World.{HistoryAction, exclusion_violation, World, BookingError}
use kapis_receptionist.Appointments.Repository.{
  insert_line, insert_appointment, create, insert_lines,
}
use kapis_receptionist.Rows.{LineRow, Env}

-- The second line overlaps the buffer of the first.
excludes-first :
    (tenant id : ℕ) (l m : LineInput)
    → m.employee_id ≡ l.employee_id
    → m.start_time ≡ l.end_time
    → l.start_time < l.end_time
    → l.end_time < l.blocked_until
    → m.start_time < m.blocked_until
    → excludes (line_create_data tenant id m) (line_create_data tenant id l) ≡ true
excludes-first tenant id l m e s a b c = ground arith

module _ {K : Type 0} where
  pub insert_line-clash :
      (l : LineRow) (w : World K)
      → any (excludes l) w.lines ≡ true
      → insert_line l w ≡ (err exclusion_violation, w)
  unfolding insert_line ◌>>=◌
  insert_line-clash l w h = rw h refl

  insert_line-free :
      (l : LineRow) (w : World K)
      → any (excludes l) w.lines ≡ false
      → insert_line l w ≡ (ok tt, record w { lines = l ∷ w.lines })
  unfolding insert_line ◌>>=◌
  insert_line-free l w h = rw h refl

  clash_after :
      (l m : LineRow) (w : World K)
      → excludes m l ≡ true
      → insert_line m (record w { lines = l ∷ w.lines })
        ≡ (err exclusion_violation, record w { lines = l ∷ w.lines })
  unfolding any
  clash_after l m w h = insert_line-clash m _ (rw h refl)

  insert_lines-back_to_back :
      (tenant id : ℕ) (l m : LineInput) (ls : List LineInput) (w : World K)
      → excludes (line_create_data tenant id m) (line_create_data tenant id l) ≡ true
      → (t : World K) × (insert_lines tenant id (l ∷ m ∷ ls) w ≡ (err exclusion_violation, t))
  unfolding insert_lines
  insert_lines-back_to_back tenant id l m ls w h =
      let x = line_create_data tenant id l in
      let y = line_create_data tenant id m in
      elim (Bool-cases (any (excludes x) w.lines)) [
        | inl clash ↦ (w, >>=-err (insert_line x) _ w (insert_line-clash x w clash))
        | inr free ↦
            let t : World K = record w { lines = x ∷ w.lines } in
            (
              t,
              >>=-ok (insert_line x) _ w (insert_line-free x w free)
                  ∙ >>=-err (insert_line y) _ t (clash_after x y w h),
            )
      ]

  insert_appointment-back_to_back :
      (env : Env) (tenant : ℕ) (i : CreateAppointmentInput) (w : World K)
      → ((v : World K)
          → (t : World K) × (insert_lines tenant env.new_id i.lines v
              ≡ (err exclusion_violation, t)))
      → (t : World K) × (insert_appointment env tenant i w ≡ (err exclusion_violation, t))
  unfolding insert_appointment ◌>>=◌
  insert_appointment-back_to_back env tenant i w fails =
      let (t, refusal) =
        fails (record w { appointments = new_row env tenant i ∷ w.appointments }) in
      (t, rw refusal refl)

  create_refused :
      (env : Env) (tenant : ℕ) (i : CreateAppointmentInput) (action : HistoryAction) (w : World K)
      {e : BookingError} {t : World K}
      → insert_appointment env tenant i w ≡ (err e, t)
      → create env tenant i action w ≡ (err e, w)
  unfolding create
  create_refused env tenant i action w h = rw h refl

  -- A booking whose first two lines are consecutive and of one employee, the first with a positive
  -- duration and a positive buffer, is always refused by the exclusion constraint, in every state of
  -- the tables, however free the employee is; and it leaves the state as it was.
  pub create_back_to_back :
      (env : Env) (tenant : ℕ) (i : CreateAppointmentInput) (action : HistoryAction)
      (l m : LineInput) (ls : List LineInput) (w : World K)
      → i.lines ≡ l ∷ m ∷ ls
      → m.employee_id ≡ l.employee_id
      → m.start_time ≡ l.end_time
      → l.start_time < l.end_time
      → l.end_time < l.blocked_until
      → m.start_time < m.blocked_until
      → create env tenant i action w ≡ (err exclusion_violation, w)
  create_back_to_back env tenant i action l m ls w lines e s a b c =
      let clash = excludes-first tenant env.new_id l m e s a b c in
      let (t, refusal) =
        insert_appointment-back_to_back env tenant i w
          (rw lines (λ v. insert_lines-back_to_back tenant env.new_id l m ls v clash)) in
      create_refused env tenant i action w refusal
