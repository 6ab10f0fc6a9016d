-- ===== src/Sql.antt =====
-- The pool of database connections: src/sql.
pub mod ConnPool
pub mod Caches
