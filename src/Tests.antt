-- ===== src/Tests.antt =====
-- The theorems at concrete inputs: one salon with one employee, one service and one customer.
mod Fixtures
mod Bookings
mod Slots
mod Guarantees
mod Accounts
mod Payments
mod CursorPages
mod Turns
mod Schedules
