-- ===== src/Worker.antt =====
-- apps/worker/src/jobs: the jobs that run without a session. Each file below models one of them.
pub mod Renewals
pub mod Expirations
pub mod Outbox
pub mod Messages
