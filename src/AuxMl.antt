-- ===== src/AuxMl.antt =====
-- The auxiliary ML service (aux-ml/app).
pub mod Jobs
pub mod Registry
pub mod Service
