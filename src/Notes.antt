-- ===== src/Notes.antt =====
-- privacy/notes: what the notes of an account are worth, which are spent, and who gets new ones.
pub mod Spendable
pub mod Spent
pub mod Delivery
