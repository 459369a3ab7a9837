-- ===== src/Session.antt =====
-- The sessions of session/.
pub mod Health
