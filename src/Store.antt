-- ===== src/Store.antt =====
-- server/internal/store: the rows of the accounts and what the database is told of requests.
pub mod Edits
pub mod Writer
