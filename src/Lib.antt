-- ===== src/Lib.antt =====
-- A model of the storage engine of numstore, and the theorems about it.
--
-- numstore keeps arrays of numbers in a file of pages. Data flows through circular byte buffers into
-- leaf pages (data lists) of an r+tree; the pager changes pages in transactions, logs every change
-- in a write-ahead log before a page reaches the file, and rolls transactions back by that log; the
-- lock table of its file system interface stands on a lock with five modes.
--
-- The files and the code that they model:
--   Prelude     shared names: tests on numbers, lists with native indices, memcpy on lists (blit).
--   Cbuffer     libs/nscore/cbuffer.c and its header. The record Cbuffer is struct cbuffer; the
--               functions have the names of the source. Consume and Produce are what a step of the
--               tail and of the head do; Queue, Move, Element and Runs state the operations on the
--               queue of bytes that the buffer holds.
--   DataList    libs/nspager/data_list.c and its header: a leaf page as its header fields and the
--               array of its bytes. Buffer is about moves between a page and a circular buffer.
--   HashTable   libs/nscore/hash_table.c and adptv_hash_table.c: a table as the list of its chains, and
--               the table that is resized while it is used. Count measures a table by how many of its nodes
--               have a property; Rehash is about the moves, Adptv and Delete about the operations.
--   InnerNode   libs/nspager/inner_node.c and its header: an inner page as the array of its keys and
--               leaves in pairs; the loops of the source are structural recursions with the same
--               indices.
--   GrLock      libs/nscore/gr_lock.c: each critical section of the lock's mutex is a function, and
--               GrLock.Threads lets n threads take them in any order, with spurious wakeups and with
--               conditions that cannot be created.
--   Wal         libs/nspager/wal.c, wal_file.c, wal_ostream.c, wal_istream.c and wal_rec_hdr.c: the
--               log as its records, each at the byte offset that is its LSN, with the bytes that are
--               in the file and those in the output buffer counted. A record's fields are kept as
--               values; its length is the sum of the pieces that its writer writes.
--   Pager       libs/nspager/pager.c, txn.c, txn_table.c and dirty_page_table.c: begin, save, commit,
--               rollback, eviction, flush and checkpoint, over that log. `pages` is what a reader
--               gets through the buffer pool, `disk` is the database file.
--   Restart     pgr_restart of libs/nspager/pager.c with what it calls of txn_table.c,
--               dirty_page_table.c and wal_rec_hdr.c: Restart itself is the analysis pass, Redo and
--               Undo are the other two. The struct txn of the context are the cells of a bank, and its
--               table holds the indices of cells.
--   Serial      libs/nscore/serializer.c and deserializer.c, and with them the transaction table and
--               the dirty page table of a checkpoint, as bytes.
--   Codec       the bytes of a log record: walf_write and walf_pread of libs/nspager/wal_file.c, the
--               decoding of wal_rec_hdr.c, and the checksum of libs/nscore/checksums.c.
--   MemTree     libs/cursors/nsrptcursor/rptree_mem.c, the reference implementation of the r+tree on
--               one array of bytes. Elements says without indices which bytes an operation is about.
--   Types       libs/nstypes: the types of stored values, with their validation, equality and bytes.
--               A struct's fields are a list in the same block as the types. Deserialize has the builder
--               of structs; Encoding and Reads say which bytes stand for what, Ends is about any bytes.
--   RobinHood   libs/nscore/include/numstore/core/robin_hood_ht.h: the table as a function from indices to
--               the entries that are present, with keys of 64 bits; InnerNode.Validate uses it.
--   SpxLatch    libs/nscore/spx_latch.c: a step is one atomic operation of a thread on the latch's
--               word. Totals adds up a measure over the threads, Threads says what a step does, and
--               Safety lets the threads take steps in any order.
--
-- How the parts interact: DataList calls Cbuffer's read and write; Pager appends to Wal, flushes it
-- and reads it back; Restart reads that log forward and backward and changes the pager's pages;
-- Serial stores the tables that a checkpoint logs and Restart merges; Codec writes those with the
-- other records; Types are written with Serial's writer and reader; GrLock, SpxLatch, HashTable and MemTree stand alone. Wal counts the bytes of its output buffer
-- and does not use the model of the circular buffer, since it never looks at them.
--
-- Bounds and fuel. The loops of Cbuffer and of walos_write_all take as much fuel as bytes are left
-- to copy: a round copies at least one byte. pgr_rollback takes one more than the LSN that it starts
-- from: each round goes to a smaller LSN; that it does not run out is part of the theorems about it.
-- The capacity of a circular buffer is at most 2 ^ 31, so that the sum of two indices fits in 32
-- bits; the sums that can pass the capacity are taken modulo 2 ^ 32. Page offsets are below 2048.
-- LSNs, page numbers and transaction ids do not reach 2 ^ 64. Analysis and redo take a round for
-- each byte of the log file and one or two more, since each record that is read takes at least a
-- byte; the loops of MemTree take two rounds for each byte of the array and two more; reading a
-- dirty page table takes a round for each eight bytes and one more. The fuel of the undo pass is a
-- parameter. The word of the shared/exclusive latch is a 64-bit number, and its memory order is
-- sequential. The loops of RobinHood take as many rounds as the table has entries; their indices are
-- sums modulo 2 ^ 64. A failed ASSERT that an operation can meet is a result of its own:
-- `failed_assert`, or `none` in Serial, Codec, Types, MemTree and Restart; an ASSERT on what the
-- caller passes is a condition of the theorems. In DataList `none` is a memcpy of overlapping bytes.
--
-- Not modelled: failing file operations and allocations, log truncation, the plain latch and the
-- taking of latches by other components, the frames and pins of the buffer pool, page allocation,
-- deletion from the table of RobinHood, cursors, the compiler, and the programs around the engine.
-- The buffer of struct txn in a restart is taken not to move when it grows. A pager is taken with its log enabled. In Wal, a
-- record of the log that is only partly in the file reads as its end.

pub mod Cbuffer
pub mod Codec
pub mod DataList
pub mod GrLock
pub mod HashTable
pub mod InnerNode
pub mod MemTree
pub mod Pager
pub mod Prelude
pub mod Restart
pub mod RobinHood
pub mod Serial
pub mod SpxLatch
pub mod Types
pub mod Wal
