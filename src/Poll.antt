-- ===== src/Poll.antt =====
-- apps/workflows/durable_deadline_poll.go: the poll with a deadline.
pub mod Model
pub mod Terminates
pub mod Ends
pub mod Tests
