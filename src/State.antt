-- ===== src/State.antt =====
-- privacy/state: the snapshot of the SDK's state, and its storage in the table of rows.
pub mod Snapshot
pub mod Balance
pub mod Adapter
