-- ===== src/AuxMl/Service.antt =====
-- The service around the queue (aux-ml/app/service.py): `Endpoints` has what requests call,
-- `Worker` the worker's side; the proofs are in the other children.
pub mod State
pub mod Endpoints
pub mod Models
pub mod Worker
pub mod Cancel
pub mod Live
pub mod Served
pub mod Settle
pub mod Finish
pub mod Examples
