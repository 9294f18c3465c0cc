-- ===== src/Db.antt =====
-- The Postgres tables of schema_pg.sql, one record for each row type and one for all tables.
pub mod Jobs
pub mod Workflows
pub mod Tables
