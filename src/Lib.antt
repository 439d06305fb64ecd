-- ===== src/Lib.antt =====
-- A verification library for the object store on raw block devices, the crate rawobjstr, and for
-- parts of the crate shardedobjstr, which spreads objects over several such stores.
--
-- A device holds two copies of the superblock, a data area of 4 KB blocks, and two index regions.
-- An object is one extent of the data area: its payload, compressed where that helps, cut into
-- blocks of 4092 bytes with a checksum before each. The index in memory maps a key to its extent,
-- and the allocator keeps the free part of the data area.
--
-- - Base: tests and list functions over the native numbers.
-- - RawError: the error type and the constants of rawobjstr/src/lib.rs, `align_up`.
-- - Compression: `Compression` of rawobjstr/src/lib.rs. The codecs of the crates zstd, snap and
--   flate2 are the parameter `Codecs`; `IsCodec` says that each reader restores what its writer
--   gave and that no writer gives nothing.
-- - Alloc: `ExtentAllocator` of rawobjstr/src/allocator.rs. The free list is a list of pairs;
--   `alloc` and `free` give the new allocator. Alloc.Shape and Alloc.Laws say what is a valid one.
-- - Device: `DeviceIo` of rawobjstr/src/io.rs. The file is a function from offsets to bytes, a
--   schedule says which of the coming writes and syncs stop with an error and after how many bytes,
--   and a predicate which reads fail. A write is seen by later reads at once; the contents before each
--   write are kept until a sync succeeds, and a crash may put any byte back to one of them (`Crashed`). The file's length and the alignment that O_DIRECT asks for are not
--   modelled.
-- - Extent: the blocks of rawobjstr/src/extent.rs, with the checksum of the crate crc32c as the
--   parameter `crc`. A theorem that needs it says that `crc` gives a 32-bit word (`IsU32`).
--   Extent.Writer is `StreamingBlockWriter`.
-- - Dict, Index, Superblock: the maps with text keys, the entries of rawobjstr/src/index.rs and the
--   superblock of rawobjstr/src/superblock.rs. Index.Shards has the parts of the index that are
--   written one by one, and Superblock.Codec the bytes of a superblock.
-- - Bincode: the functions of the crate bincode, a record that is a parameter. Its hypotheses
--   (`IsDocumented`) say that what is written is read back, whatever stands behind it.
-- - Store: `Inner` of rawobjstr/src/store.rs with its operations, from a state to a result and a
--   state. `Env` gathers the checksum with its incremental form and the codecs. `IsTidy` in
--   Store.Tidy relates the index and the allocator. Store.Copy, Store.Range and Store.Entries have
--   the copies, the range reads, and the operations on names, metadata and tombstones.
-- - Store.Flush: `flush_index`, the index and the superblock to the device. A crash is an answer of
--   the schedule that stops a write or a sync, and the loss of bytes that no sync has followed. Flush.Crash says what a device has on it: `IsReady`
--   for a device that the index in memory stands on, `AfterFlush` for what a flush leaves.
-- - Store.Open: `open_impl` with `load` for its reads, the checks of the entries, and
--   `rebuild_free_list`.
-- - Catalog: `Catalog` of shardedobjstr/src/catalog.rs, the map from a key to the shards that hold
--   the object. Catalog.Holds gives its abstract view.
-- - Cluster: the sharded store of shardedobjstr/src/lib.rs, with the policy of
--   shardedobjstr/src/replication.rs: the health of a shard, the shards that take a write, the order
--   of the reads, and the fan-out of a write with its retry. The store of a shard is a type
--   parameter with the operations `put` and `delete`; the jump consistent hash, which computes with
--   floating point numbers, is a parameter too.
-- - Tlv: the metadata encoding of shardedobjstr/src/tlv.rs. Which bytes are UTF-8 is a parameter.
--
-- Numbers are natural numbers. The fields of `ExtentInfo` are 64-bit in the code; sums that the
-- code saturates or checks are written so, and the other sums stay below 2 ^ 64 in a valid store.
-- Loops run on fuel: the batches of an extent take a block each at least, so the number of blocks
-- is enough; the rounds of `write_chunk` and of the metadata decoder take a byte each at least, so
-- the length of the data is enough.
--
-- Not modelled: the operating system's part of rawobjstr/src/io.rs; formatting and repairing a
-- store, the names of the compression algorithms, multipart uploads, the streaming reader of an extent; of the sharded store the reads,
-- deletes and lists of objects around the catalog and the rebuilding of the catalog; the metadata of
-- replicas and the repair sweeps; events, the command line tools, the Python bindings and the server
-- objstrd.
pub mod Base
pub mod RawError
pub mod Alloc
pub mod Device
pub mod Extent
pub mod Dict
pub mod Index
pub mod Compression
pub mod Superblock
pub mod Store
pub mod Catalog
pub mod Cluster
pub mod Tlv
pub mod Bincode
