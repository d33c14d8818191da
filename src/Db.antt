-- ===== src/Db.antt =====
-- internal/exec/db: the db.query capability.
pub mod Statement
pub mod Query
pub mod Schema
