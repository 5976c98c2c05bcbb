-- ===== src/Connection.antt =====
-- src/connection.rs: how many connections an address may open, and how many are open.
-- `check` is the body of one call: it holds the lock of `global_attempts` from its second statement
-- to its return, so calls follow one another; the clock is read before the lock is taken.
pub mod Rate
pub mod Active
mod Tests
