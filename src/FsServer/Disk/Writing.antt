-- ===== src/FsServer/Disk/Writing.antt =====
-- The loop of `VirtioDisk::write` of src/fs_server/src/virtio.rs.
use l4rerust.FsServer.Contract.{Contract}
