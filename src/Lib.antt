-- ===== src/Lib.antt =====
-- ZippyFS: a file system in user space that keeps files as blocks of 4096 bytes in a cache and
-- writes them to trees on disk.
--
-- FUSE calls the functions of fuse_ops.cpp, which pass the calls on to one `BlockCache`
-- (block_cache.cpp). The cache maps paths to ids and ids to inodes; an `Inode` (inode.cpp) has the
-- attributes of a file and pointers to its blocks; a `Block` (block.cpp) has up to 4096 bytes. What
-- is not in the cache is loaded by `BPLUSIndexLoader` from the trees on disk, and a flush gives all
-- inodes and the dirty blocks to a new `BPLUSIndex`, which lives in memory that `TireFire`
-- (tire_fire.cpp) maps from a file.
--
-- Common: lists, tests and results of code that may fault; Common/Map is std::map.
-- Util/Numbers and Util/Names: util.h. The hash of libsodium is an argument `generichash`, and the
--   readings of the clocks are arguments of type `Clock`. Util/Checksum: crc64 and verify_checksum,
--   with what strstr and strtoull of the C library do.
-- Block: block.h and block.cpp. Block/Splice and Block/Data have what its loop computes.
-- Inode: inode.h and inode.cpp. A shared_ptr is a position in the heap of all blocks. Contents says
--   what a file holds, Contents/Grow and Contents/Copy what keeps it, Read is about `read`.
-- Cache/State, Cache/Load, Cache/Files, Cache/Write, Cache/Flush: block_cache.h and block_cache.cpp,
--   a function for each method. The index on disk is the record `Loader`; a flush returns what it
--   hands over. Cache/Invariant has the states that calls can reach.
-- Tire: tire_fire.h and tire_fire.cpp. The addresses that mmap and mremap return are arguments.
-- Index: bplus_index.h and bplus_index.cpp. Memory has the records and the file as its typed cells,
--   with a pointer kept as its offset; Nodes, Split and Add have a function for each method. Entries
--   says what a tree holds and what shape it has; Keys and Rank are about the keys of a node, Insert
--   about an insertion into a leaf, Halves, RootSplit and LeafSplit about the split of a leaf, NewRoot
--   and FullRoot about the root above the halves, Order and Frame about entries and writes, Store about
--   the search for the place of a key. Cells, AddKey, Started and Build are about what a sequence of
--   `add_inode` writes into a new file.
-- TreeLoader: bplus_index_loader.h and bplus_index_loader.cpp, over the trees as lists of such
--   memories. Search has the search of one tree and Latest the loops over all of them. Pick and
--   Descent are about the search, Stored about the search for the place of a new key next to it,
--   Changed and Added about the search after an insertion, Taken, Newest and Times about what is
--   gathered from all trees, Children and Listing about `get_children`, and Reported puts the loader
--   in its place in the cache. Files has `load_trees`; the argument `reused` is what the system has
--   mapped since at the address of a tree that was unmapped. ReadBlocks, ReadInode, Written and
--   ListWritten are about what is read of the tree of one flush; Cache/Flush/Room and
--   Cache/Flush/Written join it to the flush of the cache.
-- Fuse: fuse_ops.h and fuse_ops.cpp; `basename` of libgen.h is an argument. Handlers is about calls
--   one after the other, NewFile and Persistence about leaving the file system and starting it
--   again.
-- Tests: inputs on which the theorems are applied.
--
-- A fault (undefined behaviour, an exception that nothing catches, a failed assert) ends a function
-- with `err`, with one exception: `strcpy` in `crypto_hash` writes a NUL one past its array for every
-- path, and `sprintf` in `binary_to_hex` may write up to six bytes past its own. If this were a fault
-- no path would have an id; the writes are taken to fall on memory that nothing else reads, and so
-- is the `strcpy` of `verify_checksum`.
--
-- Integers have the widths of the source, written out as remainders. The loop of
-- `Block::insert_data` gets 4096 rounds, since it stops at the end of the array; the loops of
-- `Inode::read` and `BlockCache::write` count blocks in 32 bits and get one round for each block and
-- one more, which is enough while the index does not wrap, below 2 ^ 44 bytes. The loop of
-- `get_children` counts in 32 bits too, and gets one round for each inode and one more.
-- The descents of a tree get a number of rounds; one for each level is enough, and `add_inode` gives
-- one for each node and one more. A node stands alone in its 584 bytes: a write outside its arrays is
-- a fault, and what the file has beside the typed cells is not looked at.
--
-- What is shown of the tree of a flush is shown for up to 23 inodes, which make one leaf; the split of
-- a full root is shown by itself.
--
-- Not modelled: the system calls by which bplus_index_loader.cpp lists a directory and maps its
-- files, so that names and contents are an argument of `load_trees`, and the name of the file that
-- bplus_index.cpp makes, in a directory that it fixes, which need not be the one that is listed;
-- `print` of bplus_index.cpp; the text records of an inode, which nothing reads; the output to the
-- terminal; Main.c, which only registers the callbacks; sync.py, which copies files between machines.
pub mod Common
pub mod Util
pub mod Block
pub mod Inode
pub mod Cache
pub mod Tire
pub mod Index
pub mod TreeLoader
pub mod Fuse
pub mod Tests
