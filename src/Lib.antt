-- ===== src/Lib.antt =====
-- Verification library of L4ReRust: the servers that offer files, descriptors, epoll and
-- asynchronous I/O over L4 IPC, the block driver below the file server, and the scheduling policies
-- and the IPC framework of the l4 crate.
--
-- The program. Each server under src/ binds an IPC gate, waits for a message, answers the request
-- whose code is in message register 0, and replies and waits. Arguments and results are in the
-- message registers `mr`; bytes are in the buffer registers `br`, of which the first says how many.
-- A server keeps what a client opens in a table of the slab crate and gives the client the key. The
-- file server mounts FAT over `VirtioDisk`, which reads and writes bytes over the sectors of a virtio
-- block device. crates/l4/scheduler holds two policies: fixed priorities with inheritance, and
-- virtual runtimes. The IPC framework of the crate writes the arguments of a call to the message
-- registers with a cursor that aligns each value, sends them with a message tag, and has a server loop
-- that hands a message to the implementation its label points to; an error of the implementation goes
-- back as the label of the reply. Capabilities are received in slots that a buffer manager allocates.
-- A tool finds the driver that a user asks for in a catalogue of the Linux drivers.
--
-- The files, each with its code:
-- - Base: names of the libraries passed on, lists and signed integers over the native numbers, and the
--   casts between machine words, written out with their wrap-around.
-- - Ipc: the UTCB and the helpers `br_clear`, `br_write_bytes`, `br_read_bytes`, `br_read_exact` and
--   `encode_errno` that the servers repeat (src/fd_server/src/main.rs). Ipc/Slab is the slab crate as
--   an interface with its laws and a value that meets them, Ipc/Loop the loop of a server, Ipc/Buffer
--   the laws of the helpers.
-- - FdServer: src/fd_server/src/main.rs. FdServer.antt has the state, the dispatch and the loop,
--   FdServer/Handlers, Counters and Records the handlers, FdServer/Host and Kernel the calls of libc
--   and what the manual pages say of them. FdServer/Ledger is the abstract view: which descriptor each
--   handle holds, and which the kernel has open.
-- - Virtio: the queue of src/virtio_frontend/src/queue.rs, which src/fs_server/src/virtio.rs repeats;
--   Virtio/Offered reads the newest chain of a queue as a device does, with the numbers of the flags
--   as a parameter; Virtio/Transport is the device of transport.rs with its features and its configuration space.
-- - FsServer: FsServer/Blk and FsServer/Disk are src/fs_server/src/virtio.rs, FsServer/Contract what
--   they rely on in a device: one that reads the flags of a descriptor as the comments of transfer
--   number them, which is not how the virtio standard does, and works without being notified; FsServer/Files src/fs_server/src/main.rs.
-- - NetServer: src/net_server/src/virtio.rs and the tokens of src/net_server/src/main.rs;
--   NetServer/Requests is the loop of main.rs on the network stack, which drives the device by an
--   interaction tree: the frames that it sends and receives, in any order.
-- - AioServer: src/aio_server/src/main.rs. EpollServer: src/epoll_server/src/main.rs.
-- - Scheduler: crates/l4/scheduler/autosar.rs and crates/l4/scheduler/linux_like.rs; Scheduler/Queue
--   is what both do with their ready queue.
-- - L4: the framework of the l4 crate. L4/Codes and L4/Error are crates/l4/error.rs, L4/Utcb
--   crates/l4/utcb.rs, L4/MsgTag crates/l4/ipc/mod.rs with `l4_msgtag` of crates/l4-sys/ipc_basic.rs,
--   L4/Buffers crates/l4/ipc/types.rs, L4/Serialise crates/l4/ipc/serialise.rs and L4/Server
--   crates/l4/ipc/server.rs. L4/Rpc is the code that the macros of crates/l4/ipc/iface.rs generate: a
--   call of a client and the dispatch of a server, and both connected by a kernel that copies words.
-- - L4Sys: L4Sys/Factory is crates/l4-sys/factory.rs with the map items of crates/l4-sys/cap.rs.
-- - Derive: Derive/Iface is crates/l4_derive/iface.rs, with the op codes that the dispatch of L4/Rpc
--   finds, and Derive/Export crates/l4_derive/export.rs, which writes an interface in C++.
-- - DriverServer: src/driver_server/src/main.rs over Virtio/Transport. LinuxShims:
--   src/linux_shims/src/lib.rs.
-- - DriverPicker: the choice of a driver in tools/driver_picker/src/main.rs.
-- The Tests modules hold concrete values of the interfaces and runs of the code on them.
--
-- State and errors. A handler is a function on a record of its table, the UTCB and a `World`, which is
-- all that the calls outside the repository read and change; such a call is a field of an interface
-- (Sys, Device, NetDevice, Stack, Fat, Slab, Search, Host, CapAlloc, Client), and what the code relies
-- on is a record of laws beside it. The loops over messages are functions of the list of what each
-- wait returns. In the schedulers, the framework, DriverServer and NetServer `none` is a panic. A call
-- on the registers of the UTCB gives its result and the registers after it, so that a failing call can
-- leave them changed.
--
-- Bounds and fuel. Words are numbers below 2 ^ 64 with `% 2 ^ 64` where the code wraps. `VirtioDisk`
-- reads and writes with fuel for the length of the buffer, which is enough since every round moves at
-- least one byte. The number of buffer registers and the sizes of the C structures are parameters.
-- The registers of the UTCB are bytes, a type is its size and alignment, and a value is its bytes, the
-- lowest first. The constants and the error numbers of the C headers are parameters; what is used of
-- them is that the numbers of one enum differ and are at most 65535, and that the error flag of a tag
-- is 0x8000. A call and its answer use the data size of the message registers, at most 63 words. The
-- macros of l4_derive work on text as code points, and `new_var` looks at the 158 characters from 97 on,
-- as many as `97u8..` gives before it overflows. A number in the C++ text has at most 20 digits,
-- as many as one below 2 ^ 64 has.
--
-- Not modelled: the start-up of the servers and their capabilities, the scan of driver_picker for
-- drivers and its output, arguments of a call that are capabilities, strings or slices (their
-- reading and writing is in L4/Utcb and L4/Serialise), the attributes of l4_client and l4_server
-- and the options of l4_derive, which are parsed by syn, the other bindings of l4-sys, l4re and
-- l4re-libc, which are calls of foreign code, and the scripts and packages.
pub mod Base
pub mod Ipc
pub mod FdServer
pub mod Virtio
pub mod FsServer
pub mod AioServer
pub mod EpollServer
pub mod Scheduler
pub mod NetServer
pub mod L4
pub mod L4Sys
pub mod Derive
pub mod DriverPicker
pub mod DriverServer
pub mod LinuxShims
