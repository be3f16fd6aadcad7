-- ===== src/Health.antt =====
-- src/autobit/paper/health.py, the monitor that may halt the paper bot. The records are in
-- Health/Snapshot.antt, the methods in Health/Monitor.antt and Health/Fills.antt, the stored
-- payload in Health/Storage.antt, and the checks on reading it in Health/Validate.antt. Api, Latch,
-- Invariant, Observe and Amounts hold lemmas, method by method.
pub mod Snapshot
pub mod Monitor
pub mod Fills
pub mod Validate
pub mod Api
pub mod Storage
pub mod Latch
pub mod Invariant
pub mod Restart
pub mod Observe
pub mod Amounts
pub mod History
pub mod Relapse
pub mod Gates
mod Tests
