-- ===== src/Stratum.antt =====
-- The bookkeeping of src/stratum.c: the submit ceiling, the ring of job difficulties and the ring
-- of submit hashes of one connection, and the server-wide set of credited header hashes. The locks
-- around them are not modelled: each operation runs under its own.
pub mod Limiter
pub mod JobDiff
pub mod Dedupe
pub mod ShareDedupe
pub mod Vardiff
pub mod Jobs
pub mod Render
pub mod Block
pub mod Submit
pub mod Lockout
mod Tests
