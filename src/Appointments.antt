-- ===== src/Appointments.antt =====
-- backend/src/modules/appointments: the state, the lines, the methods, and what runs of them do.
pub mod World
pub mod Tables
pub mod Lines
pub mod BuiltLines
pub mod Guards
pub mod Locks
pub mod Service
pub mod Writes
pub mod Kept
pub mod Requests
pub mod LockRelease
pub mod NoDoubleBooking
pub mod Cancellation
pub mod Atomic
pub mod AtomicWrites
pub mod FailedRequests
pub mod BackToBack
pub mod OwnSlot
pub mod NoPlan
pub mod Repository
