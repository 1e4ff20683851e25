-- ===== src/Appointments/Cancellation.antt =====
-- `cancelAppointment` of backend/src/modules/appointments/application/appointments.service.ts, in a
-- call that returns.
use kapis_receptionist.Prelude.Action.{
  or_throw, throw_if, pure, ok, ◌>>=◌, ◌>>◌, err, continue, >>=-returned, Result, modify,
}
use kapis_receptionist.Prelude.{
  ℕ, ◌≡◌, refl, inl, inr, Bool, true, false, not, ◌&&◌, Option, none, some, List, [], ◌∷◌, arith,
  Bool-cases, any, update_where, ap, String, find, subst,
}
use kapis_receptionist.Appointments.Repository.{
  with_lines, find_appointment, entity_if_found, cancel, Booking,
}
use kapis_receptionist.Appointments.Guards.{
  assert_staff_can_access, is_staff_only, get_appointment_for_actor, owns, Warning, is_cancellable,
  record_audit, assert_cancellable_status, build_late_notice_warnings,
}
use kapis_receptionist.Rows.{AppointmentRow, LineRow, cancelled, ActorType, Env}
use kapis_receptionist.Appointments.World.{
  World, AppointmentEntity, tenant_resource_not_found, staff_scope_forbidden, no_such_record,
  BookingError, AuditRow, audit_write_failed,
}
use kapis_receptionist.Directory.{find_employee_by_user}
use kapis_receptionist.Rbac.{AccessTokenPayload}
use kapis_receptionist.Appointments.Tables.{is_line_of, is_appointment}
use kapis_receptionist.Appointments.Service.{cancel_appointment, cancel_as, Author, person}

-- A line of the appointment that still blocks its employee.
abbrev pub blocks_for : ℕ → LineRow → Bool
blocks_for id l = is_line_of id l && l.is_blocking

unblock-none :
    (id : ℕ) (ls : List LineRow)
    → any (blocks_for id) (update_where (is_line_of id) (λ l. record l { is_blocking = false }) ls)
      ≡ false
unfolding any update_where
unblock-none id [] = refl
unblock-none id (l ∷ ls) = elim (Bool-cases (is_line_of id l)) [
  | inl e ↦ rw (e, unblock-none id ls) (ground arith)
  | inr e ↦ rw (e, unblock-none id ls) (ground arith)
]

abbrev cancelled_row : Env → Option String → AppointmentRow → AppointmentRow
cancelled_row env reason a = record a {
  status = cancelled;
  cancelled_at = some env.now;
  cancellation_reason = reason;
}

module _ {K : Type 0} where
  -- The actor reaches the appointment: not only staff, or its own employee.
  abbrev pub is_reached_by : ℕ → AccessTokenPayload → World K → AppointmentRow → Bool
  is_reached_by tenant actor w a = not (
      is_staff_only actor
      && not (owns (find_employee_by_user w.directory tenant actor.sub) (with_lines w a)))

  abbrev FoundFor : ℕ → ℕ → AccessTokenPayload → World K → AppointmentEntity → Type 0
  FoundFor tenant id actor w a =
      (old : AppointmentRow) × (find_appointment tenant id w.appointments ≡ some old)
      × (a ≡ with_lines w old)
      × (is_reached_by tenant actor w old ≡ true)

  entity_if_found-some :
      (w : World K) (o : Option AppointmentRow) {a : AppointmentEntity}
      → entity_if_found w o ≡ some a
      → (old : AppointmentRow) × (o ≡ some old) × (a ≡ with_lines w old)
  entity_if_found-some w none h = cc
  entity_if_found-some w (some old) h = (old, refl, cc)

  scoped : ℕ → AccessTokenPayload → World K → AppointmentEntity → Bool
  scoped tenant actor w a =
      is_staff_only actor && not (owns (find_employee_by_user w.directory tenant actor.sub) a)

  checked-returned :
      (c : Bool) (b : AppointmentEntity) (w : World K) {a : AppointmentEntity} {t : World K}
      → (throw_if c staff_scope_forbidden >> pure b) w ≡ (ok a, t)
      → (b ≡ a) × (c ≡ false) × (t ≡ w)
  unfolding ◌>>=◌
  checked-returned true b w h = cc
  checked-returned false b w h = (cc, refl, cc)

  -- The rest of the lookup, on what `findByIdForTenant` gave.
  allowed-returned :
      (tenant : ℕ) (actor : AccessTokenPayload) (w : World K) (o : Option AppointmentEntity)
      {a : AppointmentEntity} {t : World K}
      → (or_throw o tenant_resource_not_found >>= λ b.
            assert_staff_can_access tenant b actor >> pure b)
          w
        ≡ (ok a, t)
      → (o ≡ some a) × (scoped tenant actor w a ≡ false) × (t ≡ w)
  unfolding assert_staff_can_access scoped ◌>>=◌
  allowed-returned tenant actor w none h = cc
  allowed-returned tenant actor w (some b) h =
      let (same, allowed, kept) = checked-returned (scoped tenant actor w b) b w h in
      (ap some same, rw (← same) allowed, kept)

  get_appointment_for_actor-returned :
      (tenant id : ℕ) (actor : AccessTokenPayload) (w : World K) {a : AppointmentEntity}
      {t : World K}
      → get_appointment_for_actor tenant id actor w ≡ (ok a, t)
      → FoundFor tenant id actor w a × (t ≡ w)
  unfolding get_appointment_for_actor scoped
  get_appointment_for_actor-returned tenant id actor w h =
      let (found, reached, same) =
        allowed-returned tenant actor w
          (entity_if_found w (find_appointment tenant id w.appointments)) h in
      let (old, there, entity) = entity_if_found-some w _ found in
      ((old, there, entity, rw (← entity, reached) refl), same)

  cancel-missing :
      (env : Env) (tenant id : ℕ) (reason : Option String) (kind : ActorType) (who : Option ℕ)
      (w : World K)
      → find (is_appointment tenant id) w.appointments ≡ none
      → cancel env tenant id reason kind who w ≡ (err no_such_record, w)
  unfolding cancel
  cancel-missing env tenant id reason kind who w e = rw e refl

  cancel-found :
      (env : Env) (tenant id : ℕ) (reason : Option String) (kind : ActorType) (who : Option ℕ)
      (w : World K) (old : AppointmentRow)
      → find (is_appointment tenant id) w.appointments ≡ some old
      → let v = (cancel env tenant id reason kind who w).1 in
        (cancel env tenant id reason kind who w
          ≡ (ok (with_lines v (cancelled_row env reason old)), v))
        × (v.lines ≡ update_where (is_line_of id) (λ l. record l { is_blocking = false }) w.lines)
  unfolding cancel
  cancel-found env tenant id reason kind who w old e = (rw e refl, rw e refl)

  cancel_by_row :
      (env : Env) (tenant id : ℕ) (reason : Option String) (kind : ActorType) (who : Option ℕ)
      (w : World K) (o : Option AppointmentRow) {a : AppointmentEntity} {t : World K}
      → find (is_appointment tenant id) w.appointments ≡ o
      → cancel env tenant id reason kind who w ≡ (ok a, t)
      → (a.row.status ≡ cancelled) × (any (blocks_for id) t.lines ≡ false)
  unfolding with_lines
  cancel_by_row env tenant id reason kind who w none e h =
      let missing = cancel-missing env tenant id reason kind who w e in cc
  cancel_by_row env tenant id reason kind who w (some old) {a} {t} e h =
      let (done, lines) = cancel-found env tenant id reason kind who w old e in
      let v = (cancel env tenant id reason kind who w).1 in
      let entity : with_lines v (cancelled_row env reason old) ≡ a = cc in
      let state : v ≡ t = cc in (rw (← entity) refl, rw (← state, lines) (unblock-none id w.lines))

  guarded-returned :
      {A : Type 0} (c : Bool) (e : BookingError) (m : Booking K A) (w : World K) {a : A}
      {t : World K}
      → (throw_if c e >> m) w ≡ (ok a, t)
      → (c ≡ false) × (m w ≡ (ok a, t))
  unfolding ◌>>=◌
  guarded-returned true e m w h = cc
  guarded-returned false e m w h = (refl, h)

  recorded-lines :
      (x : AuditRow) (accepted : Bool) (c : AppointmentEntity) (warnings : List Warning)
      (u : World K) {a : AppointmentEntity} {ws : List Warning} {t : World K}
      → ◌>>◌ {B = AppointmentEntity × List Warning}
          (throw_if (not accepted) audit_write_failed
            >> modify (λ w. record w { audit = x ∷ w.audit }))
          (pure (c, warnings))
          u
        ≡ (ok (a, ws), t)
      → (c ≡ a) × (u.lines ≡ t.lines)
  unfolding ◌>>=◌
  recorded-lines x true c warnings u {a} {ws} {t} h =
      let state : record u { audit = x ∷ u.audit } ≡ t = cc in (cc, ap (λ v. v.lines) state)
  recorded-lines x false c warnings u h = cc

  audited-returned :
      (x : AuditRow) (warnings : List Warning) (r : Result BookingError AppointmentEntity × World K)
      {a : AppointmentEntity} {ws : List Warning} {t : World K}
      → continue {B = AppointmentEntity × List Warning}
          (λ c. record_audit x >> pure (c, warnings))
          r
        ≡ (ok (a, ws), t)
      → (u : World K) × (r ≡ (ok a, u)) × (u.lines ≡ t.lines)
  unfolding record_audit ◌>>=◌
  audited-returned x warnings (ok c, u) {a} {ws} {t} h =
      let (same, lines) = recorded-lines x (u.audit_accepts x) c warnings u h in
      (u, ap (λ b. (ok b, u)) same, lines)
  audited-returned x warnings (err e, u) h = cc

  cancel_as-returned :
      (env : Env) (tenant id : ℕ) (author : Author) (reason : Option String)
      (cur : AppointmentEntity) (w : World K) {a : AppointmentEntity} {ws : List Warning}
      {t : World K}
      → cancel_as env tenant id author reason cur w ≡ (ok (a, ws), t)
      → (is_cancellable cur.row.status ≡ true)
        × (a.row.status ≡ cancelled)
        × (any (blocks_for id) t.lines ≡ false)
  unfolding cancel_as assert_cancellable_status build_late_notice_warnings
  cancel_as-returned env tenant id author reason cur w h =
      let (allowed, rest) = guarded-returned (not (is_cancellable cur.row.status)) _ _ w h in
      let (u, done, lines) =
        audited-returned _ _ (cancel env tenant id reason author.actor_type author.actor_id w)
          rest in
      let (status, unblocked) =
        cancel_by_row env tenant id reason author.actor_type author.actor_id w _ refl done in
      (ground arith, status, rw (← lines) unblocked)

  -- A cancellation that succeeds found a stored appointment of the tenant that is not deleted, which
  -- was pending or confirmed, and which the actor, if only staff, performs; the appointment that it
  -- returns is cancelled, and afterwards no line of it blocks its employee.
  pub cancel_appointment_effects :
      (env : Env) (tenant id : ℕ) (actor : AccessTokenPayload) (reason : Option String)
      (w t : World K) (a : AppointmentEntity) (ws : List Warning)
      → cancel_appointment env tenant id actor reason w ≡ (ok (a, ws), t)
      → (old : AppointmentRow) × (find_appointment tenant id w.appointments ≡ some old)
        × (is_reached_by tenant actor w old ≡ true)
        × (is_cancellable old.status ≡ true)
        × (a.row.status ≡ cancelled)
        × (any (blocks_for id) t.lines ≡ false)
  unfolding cancel_appointment with_lines
  cancel_appointment_effects env tenant id actor reason w t a ws h =
      let (current, v, found, rest) =
        >>=-returned (get_appointment_for_actor tenant id actor)
          (cancel_as env tenant id (person actor) reason) w h in
      let ((old, there, entity, reached), same) =
        get_appointment_for_actor-returned tenant id actor w found in
      let (allowed, status, unblocked) =
        cancel_as-returned env tenant id (person actor) reason current v rest in
      (
        old,
        there,
        reached,
        subst (λ b. is_cancellable b.row.status ≡ true) entity allowed,
        status,
        unblocked,
      )
