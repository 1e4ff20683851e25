-- ===== src/Appointments/NoDoubleBooking.antt =====
-- The exclusion constraint on stored lines, through the writes and the runs of requests to
-- backend/src/modules/appointments/application/appointments.service.ts.
use kapis_receptionist.Prelude.Action.{Keeps, Keeps-bind}
use kapis_receptionist.Prelude.{
  ℕ, ◌≡◌, refl, false, List, [], ◌∷◌, any, update_where, inl, inr, arith, Bool-cases,
}
use kapis_receptionist.Appointments.Locks.{acquire_locks, release_locks, with_employee_locks}
use kapis_receptionist.Appointments.Requests.{Request, serve_all, serve_all-keeps}
use kapis_receptionist.Rows.{LineRow, Env}
use kapis_receptionist.Appointments.Kept.{
  Keeps-move_booking, Keeps-insert_booking, Keeps-finally, Keeps-check_windows,
}
use kapis_receptionist.Appointments.Tables.{is_line_of, LineInput, excludes}
use kapis_receptionist.Appointments.World.{World}
use kapis_receptionist.Appointments.Writes.{Stable}
use kapis_receptionist.Appointments.Repository.{Booking}
use kapis_receptionist.Locking.Keyspace.{Redis}

-- No two of the lines exclude each other.
abbrev pub Compatible : List LineRow → Type 0
Compatible [] = Unit
Compatible (x ∷ xs) = (any (excludes x) xs ≡ false) × Compatible xs

-- A line that clashed with nothing still does after lines stopped blocking.
any-excludes-unblock :
    (id : ℕ) (x : LineRow) (xs : List LineRow)
    → any (excludes x) xs ≡ false
    → any (excludes x) (update_where (is_line_of id) (λ l. record l { is_blocking = false }) xs)
      ≡ false
unfolding any update_where
any-excludes-unblock id x [] h = refl
any-excludes-unblock id x (y ∷ ys) h = elim (Bool-cases (is_line_of id y)) [
  | inl e ↦ rw e (ground (arith, any-excludes-unblock id x ys))
  | inr e ↦ rw e (ground (arith, any-excludes-unblock id x ys))
]

-- A line that does not block clashes with nothing.
any-excludes-unblocked :
    (x : LineRow) (xs : List LineRow) → any (excludes (record x { is_blocking = false })) xs ≡ false
unfolding any
any-excludes-unblocked x [] = refl
any-excludes-unblocked x (y ∷ ys) = any-excludes-unblocked x ys

Compatible-unblock :
    (id : ℕ) (xs : List LineRow)
    → Compatible xs
    → Compatible (update_where (is_line_of id) (λ l. record l { is_blocking = false }) xs)
unfolding update_where
Compatible-unblock id [] h = tt
Compatible-unblock id (x ∷ xs) (h, hs) = elim (Bool-cases (is_line_of id x)) [
  | inl e ↦ rw e (any-excludes-unblocked x _, Compatible-unblock id xs hs)
  | inr e ↦ rw e (any-excludes-unblock id x xs h, Compatible-unblock id xs hs)
]

module _ {K : Type 0} where
  abbrev pub NoDoubleBooking : World K → Type 0
  NoDoubleBooking w = Compatible w.lines

  NoDoubleBooking-Stable : Stable NoDoubleBooking
  NoDoubleBooking-Stable = record {
    appointments = λ w rows h. h;
    insert = λ w l e h. (e, h);
    unblock = λ w id h. Compatible-unblock id w.lines h;
    history = λ w rows h. h;
    audit = λ w rows h. h;
    billing = λ w b h. h;
  }

module _ {K : Type 0} ⦃r : Redis K⦄ where
  locked :
      {A : Type 0} (env : Env) (tenant : ℕ) (ls : List LineInput) (work : Booking K A)
      → Keeps NoDoubleBooking work
      → Keeps NoDoubleBooking (with_employee_locks env tenant ls work)
  unfolding with_employee_locks acquire_locks
  locked env tenant ls work k =
      Keeps-bind (acquire_locks env tenant ls) _ (record { at = λ w h. h })
        λ locks.
          Keeps-finally _ (release_locks locks)
            (Keeps-bind _ _ (Keeps-check_windows tenant ls) λ u. k) λ w h. h

  -- If no two stored lines of one employee that block overlap in `[start, blocked_until)`, then none
  -- do after any run of requests, whatever succeeds and whatever fails in it.
  pub no_double_booking :
      (qs : List Request) (w : World K) → NoDoubleBooking w → NoDoubleBooking (serve_all qs w)
  no_double_booking qs w h =
      serve_all-keeps NoDoubleBooking-Stable
        (λ env tenant author q ls.
          locked env tenant ls _
            (Keeps-insert_booking NoDoubleBooking-Stable env tenant author q ls))
        (λ env tenant id author a ls.
          locked env tenant ls _
            (Keeps-move_booking NoDoubleBooking-Stable env tenant id author a ls))
        qs w h
