-- ===== src/Lib.antt =====
-- Kapis Receptionist: the backend of a salon receptionist, backend/src: bookings, accounts and
-- subscriptions.
--
-- A booking request goes through `AppointmentsService`. It checks the customer and the monthly limit
-- of the tenant's plan, builds one line for each requested service, takes a Redis lock for every
-- employee, asks the availability service whether each line's window is free, and writes the
-- appointment, its lines and its history in one transaction, where an exclusion constraint of
-- Postgres is the last test. The AI receptionist books through the same methods. An owner registers
-- a tenant, which starts a trial subscription; Stripe's events keep it and the status of the tenant
-- up to date. Sessions are refresh tokens that rotate.
--
-- Files, and the code they model (paths from modules, core and common are below backend/src):
--   Prelude: names, lists and tests that the files share; Prelude/Action is the monad of methods
--     that read and write a state, and return or throw.
--   Scheduling: backend/src/common/utils/scheduling-date.util.ts. Scheduling/Months: the calendar.
--   Directory: the queries of modules/employees, services, customers and salon that booking calls.
--     Directory/Settings: backend/src/common/utils/json-settings.util.ts.
--   Rows: the booking tables of backend/prisma/schema.prisma.
--   Salon/BusinessHours: modules/salon/application/business-hours.service.ts.
--   Availability: modules/availability/application/availability.service.ts (`getAvailableSlots`,
--     `isWindowAvailable`); its children hold the working windows, the loops and the final sort.
--   Locking: core/locking/booking-lock.service.ts (`acquire`, `release`). Locking/Keyspace is the
--     interface of Redis, which is not part of the repository.
--   Billing/Entitlement: modules/billing/application/entitlement.service.ts.
--   Billing/Stripe, Subscriptions, StripeEvents, Webhooks, Checkout: the services of those names in
--     modules/billing/application. Billing/Lifecycle: modules/tenants/application/
--     tenant-lifecycle.service.ts. The other children hold
--     lemmas.
--   Auth: modules/auth. Tables is its state, Sessions, LoginAttempts, Users, Registration, Accounts
--     and Login the services and repositories, Invitations that of modules/tenants, and Requests
--     runs of them. The other children hold lemmas.
--   Employees: the working hours and days off of modules/employees. Schedules and WeeklyHours hold
--     lemmas.
--   Pagination: common/utils/cursor-pagination.util.ts; CustomerList the query of
--     modules/customers/infrastructure/prisma-customer.repository.ts.
--   Idempotency: core/idempotency/idempotency.interceptor.ts.
--   Assistant: the tool loop of modules/ai/application/conversation-orchestrator.service.ts.
--   Rbac: common/constants/rbac.constants.ts.
--   Appointments: modules/appointments. World is the state, Tables and Repository the writes of
--     infrastructure/prisma-appointment.repository.ts, Lines, Guards, Locks and Service the methods
--     of application/appointments.service.ts, and Requests runs of them. The other children hold
--     lemmas.
--   Tests: a small salon, and the theorems at concrete inputs.
--
-- Identifiers are numbers; an instant counts milliseconds since 1970, a date days, and a time of day
-- minutes. A call that waits is one step: requests run one after the other. The loops of
-- `getAvailableSlots` run on fuel, a round for each day of the range and for each quarter of an hour
-- of a window. The loop that finds a month has a round for each day since 1970, and a month has at
-- least one. What a request draws from outside (the clock, the identifier of a new row, lock tokens)
-- is its argument `Env`.
--
-- Not modelled: the WhatsApp module, the AI module beside its tool loop, the services that write the
-- directory's tables other than hours and days off, controllers, guards and the frontend. Hashing,
-- tokens, JSON, text normalisation, Redis, the mail server, Stripe and the language model are
-- arguments, with what they document as hypotheses. A SET of a lock that threw may have run. The
-- insert of a booking's audit row can fail, after what the booking wrote; those of the other services
-- are taken to succeed. Whether Redis stores an idempotent response is an argument, since the code
-- does not wait for it. Sort values of a page are not null. A lock does not expire within a call. Log
-- lines are left out.
pub mod Prelude
pub mod Assistant
pub mod Idempotency
pub mod Pagination
pub mod Scheduling
pub mod Directory
pub mod Employees
pub mod Rows
pub mod Salon
pub mod Auth
pub mod Availability
pub mod Locking
pub mod Billing
pub mod Rbac
pub mod Appointments
pub mod Tests
