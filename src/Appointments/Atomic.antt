-- ===== src/Appointments/Atomic.antt =====
-- The tables of bookings before and after a call that throws, for the methods of
-- backend/src/modules/appointments/application/appointments.service.ts.
use kapis_receptionist.Prelude.Action.{
  ◌>>◌, Keeps, rollback, continue, Result, transaction, ◌>>=◌, err, ok, modify, throw_if, pure,
  gets,
}
use kapis_receptionist.Prelude.{◌≡◌, refl, ◌∙◌, ◌≢◌, Bool, true, false, not, ◌∷◌}
use kapis_receptionist.Appointments.World.{BookingError, World, audit_write_failed, AuditRow}
use kapis_receptionist.Appointments.Repository.{Booking}
use kapis_receptionist.Appointments.Guards.{record_audit}

module _ {K : Type 0} where
  -- The tables of bookings are the same; the subscription and the locks may differ.
  pub record SameTables (w v : World K) : Type 0 where
    pub appointments : v.appointments ≡ w.appointments
    pub lines : v.lines ≡ w.lines
    pub history : v.history ≡ w.history
    pub audit : v.audit ≡ w.audit

  pub SameTables-refl : (w : World K) → SameTables w w
  SameTables-refl w = record { appointments = refl; lines = refl; history = refl; audit = refl }

  pub SameTables-trans : (u v w : World K) → SameTables u v → SameTables v w → SameTables u w
  SameTables-trans u v w p q = record {
    appointments = q.appointments ∙ p.appointments;
    lines = q.lines ∙ p.lines;
    history = q.history ∙ p.history;
    audit = q.audit ∙ p.audit;
  }

  abbrev pub Quiet : {A : Type 0} → Booking K A → Type 0
  Quiet m = (w : World K) → Keeps (SameTables w) m

  -- What is left of the tables by how a call ended, if not with a failed insert of its audit row.
  abbrev pub UnchangedOnError : {A : Type 0} → World K → Result BookingError A × World K → Type 0
  UnchangedOnError w (ok a, v) = Unit
  UnchangedOnError w (err e, v) = e ≢ audit_write_failed → SameTables w v

  pub record Atomic {A : Type 0} (m : Booking K A) : Type 0 where
    pub at : (w : World K) → UnchangedOnError w (m w)

  abbrev pub IsOkOrUnaudited : {A : Type 0} → Result BookingError A × World K → Type 0
  IsOkOrUnaudited (ok a, v) = Unit
  IsOkOrUnaudited (err e, v) = e ≡ audit_write_failed

  -- A call that only the insert of an audit row can make fail.
  pub record FailsUnaudited {A : Type 0} (m : Booking K A) : Type 0 where
    pub at : (w : World K) → IsOkOrUnaudited (m w)

  on_error :
      {A : Type 0} (w : World K) (r : Result BookingError A × World K)
      → SameTables w r.1
      → UnchangedOnError w r
  on_error w (ok a, v) h = tt
  on_error w (err e, v) h = λ ne. h

  pub Quiet-Atomic : {A : Type 0} (m : Booking K A) → Quiet m → Atomic m
  Quiet-Atomic m q = record { at = λ w. on_error w (m w) ((q w).at w (SameTables-refl w)) }

  rolled_back :
      {A : Type 0} (w : World K) (r : Result BookingError A × World K)
      → UnchangedOnError w (rollback w r)
  rolled_back w (ok a, v) = tt
  rolled_back w (err e, v) = λ ne. SameTables-refl w

  pub Atomic-transaction : {A : Type 0} (m : Booking K A) → Atomic (transaction m)
  unfolding transaction
  Atomic-transaction m = record { at = λ w. rolled_back w (m w) }

  after_quiet :
      {A : Type 0} (u v : World K) (r : Result BookingError A × World K)
      → SameTables u v
      → UnchangedOnError v r
      → UnchangedOnError u r
  after_quiet u v (ok a, t) p h = tt
  after_quiet u v (err e, t) p h = λ ne. SameTables-trans u v t p (h ne)

  continue-Atomic :
      {A B : Type 0} (f : A → Booking K B) (w : World K) (r : Result BookingError A × World K)
      → SameTables w r.1
      → ((a : A) → Atomic (f a))
      → UnchangedOnError w (continue f r)
  continue-Atomic f w (ok a, v) p h = after_quiet w v (f a v) p ((h a).at v)
  continue-Atomic f w (err e, v) p h = λ ne. p

  pub Atomic-bind :
      {A B : Type 0} (m : Booking K A) (f : A → Booking K B)
      → Quiet m
      → ((a : A) → Atomic (f a))
      → Atomic (m >>= f)
  unfolding ◌>>=◌
  Atomic-bind m f q h = record {
    at = λ w. continue-Atomic f w (m w) ((q w).at w (SameTables-refl w)) h;
  }

  total_rest :
      {A : Type 0} (w : World K) (r : Result BookingError A × World K)
      → IsOkOrUnaudited r
      → UnchangedOnError w r
  total_rest w (ok a, v) h = tt
  total_rest w (err e, v) h = λ ne. absurd (ne h)

  continue_total :
      {A B : Type 0} (f : A → Booking K B) (w : World K) (r : Result BookingError A × World K)
      → UnchangedOnError w r
      → ((a : A) → FailsUnaudited (f a))
      → UnchangedOnError w (continue f r)
  continue_total f w (ok a, v) p h = total_rest w (f a v) ((h a).at v)
  continue_total f w (err e, v) p h = p

  -- Only the audit row of what follows can fail.
  pub Atomic-total :
      {A B : Type 0} (m : Booking K A) (f : A → Booking K B)
      → Atomic m
      → ((a : A) → FailsUnaudited (f a))
      → Atomic (m >>= f)
  unfolding ◌>>=◌
  Atomic-total m f k h = record { at = λ w. continue_total f w (m w) (k.at w) h }

  pub FailsUnaudited-pure : {A : Type 0} (a : A) → FailsUnaudited (pure a)
  unfolding pure
  FailsUnaudited-pure a = record { at = λ w. tt }

  pub FailsUnaudited-gets : {A : Type 0} (f : World K → A) → FailsUnaudited (gets f)
  unfolding gets
  FailsUnaudited-gets f = record { at = λ w. tt }

  pub FailsUnaudited-modify : (f : World K → World K) → FailsUnaudited (modify f)
  unfolding modify
  FailsUnaudited-modify f = record { at = λ w. tt }

  continue-FailsUnaudited :
      {A B : Type 0} (f : A → Booking K B) (r : Result BookingError A × World K)
      → IsOkOrUnaudited r
      → ((a : A) → FailsUnaudited (f a))
      → IsOkOrUnaudited (continue f r)
  continue-FailsUnaudited f (ok a, v) p h = (h a).at v
  continue-FailsUnaudited f (err e, v) p h = p

  pub FailsUnaudited-bind :
      {A B : Type 0} (m : Booking K A) (f : A → Booking K B)
      → FailsUnaudited m
      → ((a : A) → FailsUnaudited (f a))
      → FailsUnaudited (m >>= f)
  unfolding ◌>>=◌
  FailsUnaudited-bind m f k h = record { at = λ w. continue-FailsUnaudited f (m w) (k.at w) h }

  audit_refused :
      (a : AuditRow) (c : Bool)
      → FailsUnaudited (
          throw_if {S = World K} (not c) audit_write_failed
          >> modify (λ w. record w { audit = a ∷ w.audit }))
  unfolding ◌>>=◌
  audit_refused a true = record { at = λ w. tt }
  audit_refused a false = record { at = λ w. refl }

  pub FailsUnaudited-record_audit : (a : AuditRow) → FailsUnaudited (record_audit a)
  unfolding record_audit
  FailsUnaudited-record_audit a =
      FailsUnaudited-bind _ _ (FailsUnaudited-gets _) (λ c. audit_refused a c)

pub ruleset unaudited_rules = (
  FailsUnaudited-pure, FailsUnaudited-gets, FailsUnaudited-modify, FailsUnaudited-bind,
  FailsUnaudited-record_audit,
)
