-- ===== src/FsServer/Disk/RoundTrip.antt =====
-- What `VirtioDisk` of src/fs_server/src/virtio.rs reads back after a write.
use l4rerust.FsServer.Contract.{Contract}
