-- ===== src/Database.antt =====
-- src/db.rs: the file of metadata and what a node caches of it, and the bundle of chains. A file is
-- its bytes; the codec of metadata, the opening of a file and its reader are parameters. That
-- `write_all` fails is left out.
pub mod Meta
pub mod Files
pub mod Bundle
