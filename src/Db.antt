-- ===== src/Db.antt =====
-- ragent/db/repo.py over the tables of infra/postgres/init.sql.
pub mod Tables
pub mod Documents
pub mod Blocks
pub mod Chunks
pub mod Targets
pub mod Pages
