-- ===== src/Dao.antt =====
-- dao/: the text of SQL statements for an entity, which is described by the fields of its type.
pub mod Columns
pub mod Builder
