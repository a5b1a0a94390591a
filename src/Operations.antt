-- ===== src/Operations.antt =====
-- privacy/operations/: the runner of jobs in a proving worker (Runner, with the submission and what
-- follows it in Finalize), and the service that asks for them (Service).
pub mod Finalize
pub mod Runner
pub mod Service
