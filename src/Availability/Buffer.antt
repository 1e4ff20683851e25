-- ===== src/Availability/Buffer.antt =====
-- The buffer that `isWindowAvailable` of
-- backend/src/modules/availability/application/availability.service.ts is given. The method fetches
-- the rows that meet the window itself.
use kapis_receptionist.Prelude.{ℕ, ◌≡◌, refl, List, [], ◌∷◌, arith, any, keep}
use kapis_receptionist.Scheduling.{add_minutes}
use kapis_receptionist.Rows.{LineRow}
use kapis_receptionist.Availability.Loops.{conflicts_with}
use kapis_receptionist.Availability.{get_blocking_ranges, is_window_available}
use kapis_receptionist.Directory.{Directory}

conflicts-eq :
    (lines : List LineRow) (tenant employee start end buffer : ℕ)
    → any
        (conflicts_with start (add_minutes end buffer))
        (get_blocking_ranges lines tenant employee start end)
      ≡ any
          (conflicts_with start (add_minutes end 0))
          (get_blocking_ranges lines tenant employee start end)
unfolding get_blocking_ranges any keep
conflicts-eq [] tenant employee start end buffer = refl
conflicts-eq (l ∷ lines) tenant employee start end buffer =
    ground (arith, conflicts-eq lines tenant employee start end buffer)

-- The answer of `isWindowAvailable` is the same for every buffer.
pub is_window_available_buffer :
    (d : Directory) (lines : List LineRow) (tenant employee start end buffer : ℕ)
    → is_window_available d lines tenant employee start end buffer
      ≡ is_window_available d lines tenant employee start end 0
unfolding is_window_available
is_window_available_buffer d lines tenant employee start end buffer =
    rw (conflicts-eq lines tenant employee start end buffer)
