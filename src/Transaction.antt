-- ===== src/Transaction.antt =====
-- accelerator/core/mutation-transaction.js: the immutable transaction of one governed mutation. The
-- children follow the source: its stages, its data, its identity, the evidence of commit authority,
-- validation, and the operations; the others state what holds of them.
-- A transaction, its definition and its history are records; the objects that come from elsewhere
-- (the input, the lock, the evidence) are untyped values, tested as the source tests them.
pub mod Stage
pub mod Data
pub mod Authority
pub mod Validate
pub mod Operations
pub mod History
pub mod Safety
pub mod Early
pub mod Extend
pub mod Preserve
pub mod Bind
pub mod BindEvidence
pub mod BindRecovery
pub mod SecondRecovery
pub mod Steps
pub mod Forged
pub mod Replay
