-- ===== src/Runtime.antt =====
-- src/guardian_agent/runtime.py: the durable task queue, the named locks, the emergency stop and the
-- drain coordinator. The queue and lock files are values; each read-modify-write under the file
-- lock is one function. The clock and the random ids are arguments, the journal is not modelled.
pub mod Tasks
pub mod Stop
pub mod Locks
pub mod History
pub mod Drain
mod Tests
