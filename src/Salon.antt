-- ===== src/Salon.antt =====
-- backend/src/modules/salon: business hours and holidays of a tenant.
pub mod BusinessHours
