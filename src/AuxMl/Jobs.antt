-- ===== src/AuxMl/Jobs.antt =====
-- The job queue and the job store (aux-ml/app/jobs.py). `Record` has the job record and its
-- statuses, `Scheduler` the methods of `JobScheduler`; the proofs are in the other children.
pub mod Record
pub mod Scheduler
pub mod Cas
pub mod Steps
pub mod Lifecycle
pub mod Keeps
pub mod Fifo
pub mod Unclaimed
pub mod Outcomes
pub mod Examples
pub mod Invariants
