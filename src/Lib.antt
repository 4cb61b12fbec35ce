-- ===== src/Lib.antt =====
-- distfs: a read-only file system that is kept as chunks of 4 MB and shared between peers.
--
-- A tree of files is laid out as one image: a block with the metadata (meta/), and behind it the
-- contents of the files. data/chunk_builder.cc cuts the image into chunks, which
-- data/compressed_store.cc compresses and hands to a store. To read, fuse/fuse_main.cc asks
-- meta/meta_file_system.cc for the place of a file in the image and data/data_provider.cc for the
-- bytes; that goes chunk by chunk through the cache of data/chunk_provider.cc, which looks in the store
-- and then asks the peers (network/), and forgets what common/lru_collector.cc tells it to forget.
--
-- The files:
--   Base, Base/*          lists, options and Booleans, shared by all
--   Common                common/error_code.h, common/consts.h
--   Common/LruCollector   common/lru_collector.h, common/lru_collector.cc: new, update, remove
--   Common/OrderedSet     common/ordered_set.h, common/ordered_set.cc: new, push, pop, size
--   Network/ChunkAvailability
--                         network/chunk_availability.h, network/chunk_availability.cc: of_bitmask, index,
--                         bitmask, count, less
--   Network/Transfer      GetChunk of network/distfs_service.cc and fetch_chunk of
--                         network/connection_pool.cc: a chunk from peer to peer
--   Network/ConnectionPool
--                         network/connection_pool.h, network/connection_pool.cc: connections, active peers
--                         and candidates; Worker is the worker thread, Blocks the choice of a peer for
--                         a chunk, Reach the states that a pool gets into
--   Network/Service       network/distfs_service.cc: InfoExchange, PeerExchange, GetMetadata;
--                         network/distfs_bootstrap.cc
--   Network/DistfsMetadata
--                         network/distfs_metadata.cc: the hashes and the identifier
--   Data                  the methods of data/chunk_store.h as an interface (ChunkStorage), and what the
--                         lemmas on Data/ChunkBuilder suppose of a store (IsStorage): a map from
--                         identifiers to chunks, which ChunkStore, as it evicts chunks, and
--                         CompressedStore, where LZ4 fails, are not
--   Data/Memory           buffers, and the bytes of an image that is cut into chunks
--   Data/Posix            the calls of the operating system, as a parameter
--   Data/ChunkStore       data/chunk_store.h, data/chunk_store.cc: all methods; Reach is the states that a
--                         store gets into, Reading and Names are about the files
--   Data/CompressedStore  data/compressed_store.cc, data/compression_engine.cc
--   Data/ChunkBuilder     data/chunk_builder.h, data/chunk_builder.cc: move_pos, write_data, reserve,
--                         write, build, and the destructor (destroy); Files: add_file
--   Data/ChunkProvider    data/chunk_provider.h, data/chunk_provider.cc: read_chunk, remove_chunk
--   Data/DataProvider     data/data_provider.cc: read; Cached joins it to ChunkProvider
--   Meta, Meta/Memory     meta/types.h, and the block of memory as bytes
--   Meta/MetaFileSystem   meta/meta_file_system.cc: find_entity, get_child, get_node_offset
--   Meta/Queries          meta/meta_file_system.cc: the public queries and the constructor
--   Meta/MetaFsBuilder    meta/metafs_builder.h, meta/metafs_builder.cc: the buffer and the nodes in it
--   Fuse                  fuse/fuse_main.cc: the handlers; Fuse/Reading follows a read to the chunks
--   Meta/Stat             get_stat of meta/meta_file_system.cc, set_stat of meta/metafs_builder.cc
-- Modules called Tests run the code at small inputs; Data/Samples is a store for them.
--
-- State is passed explicitly. An output argument is a component of the result. Undefined behaviour is
-- `none` or `undefined`, so that a theorem which says that a call returns also says that it is defined.
-- The size of a chunk is a parameter of the functions that depend on it. Machine integers wrap where
-- they can.
--
-- Fuel: the loop of ChunkBuilder.write_data has a round for every byte, that of DataProvider.read too,
-- OrderedSet.push one more than there are elements, find_entity as many as there are entries, and
-- GetChunk one for every byte; the loops of ChunkStore's read_chunk and write_chunk and the inner one of
-- add_file have one more than there are bytes, and reserve_buffer has 65, since it doubles a size of 64
-- bits. The theorems on them show that this is enough. The outer loop of add_file has a round for every
-- block of a file, and its theorem asks for more fuel than the file has bytes. fetch_chunk needs no
-- fuel: a second round uses the ClientContext of the first again, which is undefined.
--
-- OrderedSet keeps iterators into a hash table: which of them a rehash has invalidated is part of its
-- state, and when the table rehashes is a parameter (hash_policy in Host).
--
-- Not modelled: threads and mutexes (a call runs to its end before the next), and the parts that talk
-- to the host: the traversal in meta/metafs_builder.cc (scan_dfs, read_xattrs, create_chunks and build),
-- network/distfs_server.cc and main.cc. gRPC (Host in Network/ConnectionPool), the clock, random numbers,
-- SHA-256, LZ4, the client that fetches a chunk for the cache, the calls of the operating system
-- (Data/Posix) and, for its users, the store are parameters.
pub mod Base
pub mod Common
pub mod Network
pub mod Data
pub mod Meta
pub mod Fuse
