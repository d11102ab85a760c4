-- ===== src/Storage.antt =====
-- pkg/storage: the record book, the license registry and the directory loader.
pub mod RecordBook
pub mod Registry
pub mod Loader
