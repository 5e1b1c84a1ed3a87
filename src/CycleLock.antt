-- ===== src/CycleLock.antt =====
-- app/services/cycle_lock.py: the lock that a paper cycle takes in the database.
pub mod Lock
pub mod Cases
pub mod Exclusive
pub mod Tests
