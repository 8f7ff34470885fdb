-- ===== src/File.antt =====
-- FileSvr: backend/filesvr/internal, files in parts over a database and a disk.
pub mod Data
pub mod Store
pub mod Disk
pub mod Service
pub mod Lookup
pub mod Paths
pub mod Uploads
pub mod Range
