-- ===== src/FsServer.antt =====
-- src/fs_server: the disk below the FAT32 layer, and the file server.
pub mod Blk
pub mod Disk
pub mod Contract
pub mod Files
pub mod Tests
