-- ===== src/Lib.antt =====
-- cdc-file-transfer: a verification of the delta transfer of files by content-defined chunks, and of
-- parts of the programs around it.
--
-- The program. cdc_rsync copies files to a remote server, and sends only the parts that the server
-- does not have. fastcdc/fastcdc.h cuts a file into chunks at places that its content decides.
-- cdc_rsync/base/cdc_interface.cc runs the transfer of one file: the server cuts its old file and
-- sends a hash and a size for each chunk (CreateAndSendSignature); the client cuts its new file,
-- looks each hash up and sends commands that copy from the old file or bring new bytes
-- (ReceiveSignatureAndCreateAndSendDiff); the server carries the commands out
-- (ReceiveDiffAndPatch). cdc_rsync_server/file_diff_generator.cc decides which files are missing,
-- changed or the same. cdc_rsync/base/message_pump.cc carries the messages of both sides over a
-- socket. common/threadpool.cc computes the hashes on the server, manifest/content_id.cc names data
-- by their hashes, manifest/pending_assets_queue.cc orders the work on a manifest of a directory,
-- common/ansi_filter.cc cleans the output of remote commands and common/path_filter.cc picks files
-- by patterns. cdc_fuse_fs/asset.cc reads the files and directories of a manifest chunk by chunk,
-- from data_store/data_provider.cc, which puts a cache before its readers;
-- manifest/file_chunk_map.cc tells which file has a chunk.
--
-- The files.
--   Prelude: shared names. Prelude/Lists: lists on native numbers, flatten and All. Prelude/Words:
--     32-bit and 64-bit sums and bytes of words. Prelude/Status: results with a status code.
--   Chunker: fastcdc/fastcdc.h. `find_chunk_boundary` is FindChunkBoundary, `process` is Process and
--     `finalize` is Finalize. The hash has `w` bits and the gear table is a function; Chunker/Gear has
--     the two tables of the source. Chunker/Mask: the regression mask. Chunker/Bounds: where a cut
--     lies. Chunker/Cuts: the chunks as a relation. Chunker/Streaming: many calls of Process.
--   Delta: the data of cdc_rsync/base/cdc_interface.cc and of its messages. Delta/Receiver:
--     ServerChunkReceiver, with Delta/Receiver/Hashes on hashes as bytes and Delta/Receiver/Index on
--     its map. Delta/Sender: PatchSender, with
--     Delta/Sender/Pending on
--     the request at hand, Delta/Sender/Step on one chunk and Delta/Sender/Chunks on TryAddChunks. Delta/Patch:
--     ReceiveDiffAndPatch and IsExecutable of common/util.cc, with Delta/Patch/Replay on what is
--     written. Delta/Signature: CreateAndSendSignature, with Delta/Signature/Correct and
--     Delta/Signature/Stream on what is sent. Delta/Session: the client's handler and its loop, with
--     Delta/Session/Correct on the client's side and Delta/Session/Transfer on both sides together.
--   FileDiff: cdc_rsync_server/file_diff_generator.cc and file_info.h, with
--     FileDiff/Paths on the order of paths, FileDiff/Sorting on the loop over the files, FileDiff/Sorted
--     and FileDiff/SamePaths on sorting, FileDiff/Generate on Generate and FileDiff/Buckets on the flags.
--   Threads: common/threadpool.cc, with Threads/Count and Threads/Fifo. PendingAssets:
--     manifest/pending_assets_queue.cc, with PendingAssets/Ordered. ContentId:
--     manifest/content_id.cc, with ContentId/Hex. AnsiFilter: common/ansi_filter.cc, with
--     AnsiFilter/Output. PathFilter: common/path_filter.cc, with PathFilter/Literal.
--   MessagePump: the packets and bytes of cdc_rsync/base/message_pump.cc, with MessagePump/Wire on whole
--     packets and MessagePump/Truncated on cut ones. MessagePump/Outgoing: the queue and the thread that
--     sends, with Outgoing/Bytes and Outgoing/Prefix. MessagePump/Incoming: the queue and the thread that
--     receives, with Incoming/Order and Incoming/Stream. MessagePump/Pump: both, with Pump/Sent and
--     Pump/Received.
--   FileChunkMap: manifest/file_chunk_map.cc, with FileChunkMap/Count on the number of chunks,
--     FileChunkMap/Find on a place and FileChunkMap/Lookup.
--   DataStore: the tasks and interfaces of data_store/data_store_reader.cc and data_store_writer.h, with
--     DataStore/Right on right answers. DataStore/Mem: data_store/mem_data_store.cc, with Mem/Refines
--     and Mem/Serve. DataProvider: data_store/data_provider.cc, with DataProvider/Locks on the order of
--     locks, DataProvider/Reads on one chunk and DataProvider/Lists on lists of tasks.
--   FuseAsset: the lists of cdc_fuse_fs/asset.cc, with FuseAsset/Children on Lookup, FuseAsset/Cached on
--     lists of chunks and FuseAsset/Layout on a file's chunks. FuseAsset/Read: Asset::Read, with Read/Loop,
--     Read/Steps, Read/Rounds and Read/Start on its loops, Read/Buffer on the tasks, Read/Correct and
--     Read/File. FuseAsset/Consistent: Asset::IsConsistent, with Consistent/Ascending.
--   Prelude/Dict: maps from byte strings as lists of entries. Prelude/Parts: parts of lists.
--   Tests: the theorems at concrete inputs.
--
-- Words and time. `size_t` values and lengths of lists are natural numbers; 32-bit and 64-bit fields
-- keep their wrap-around. A client's file and a message queue are lists. What arrives when (responses,
-- completed hash tasks) is an argument.
--
-- Fuel. `chunk_loop` has one more than the bytes that are left, and each round takes one byte or
-- more. `narrow` has one more than the bits of a hash. `exchange_loop` has more than the responses
-- and chunks that are left, and each round takes one of them. `compare_files` and `compare_dirs`
-- have as much as the files or directories. Asset::Read takes its fuel as an argument, and a unit
-- for each chunk and each list is enough. `lookup_child` has one more than the lists to fetch.
-- Running out of fuel is a value of its own, or shows in the counts.
--
-- Parameters. The BLAKE3 hasher, which returns bytes; that a chunk is known by its hash is a
-- hypothesis on the chunks of the two files only. For the delta transfer, the message pump, which
-- accepts a message or not, and delivers in order. For the message pump, the socket, protobuf's
-- serialization and the readers of redirected input. For the data provider, its readers, its cache
-- and what other threads do to it between the locks. For an asset, the data store. Writes to the
-- patched file, which succeed or not. The file system, for the double check of missing files. The
-- manifest builder, for the assets to prioritize.
--
-- Not modelled: sockets, processes, gRPC, FUSE, the platform's file system and logging, which only
-- call other code; the disk and remote data stores; the builder, updater and iterator of manifests; the
-- thread that cleans the data provider's cache up; the statistics of the chunk map; other threads
-- between the locks of an asset; the callback and the timeouts of the thread
-- pool.
pub mod Prelude
pub mod Chunker
pub mod Delta
pub mod MessagePump
pub mod AnsiFilter
pub mod PendingAssets
pub mod FileChunkMap
pub mod DataStore
pub mod DataProvider
pub mod FuseAsset
pub mod FileDiff
pub mod Threads
pub mod ContentId
pub mod PathFilter
pub mod Tests
