-- ===== src/Lib.antt =====
-- Verification of the Simple Redis Database, a key-value store in C.
--
-- The program. A shell (main/myjqlshell.cpp) makes a request for each line of its input through a
-- client (driver/myjqlclient.cpp). A server (main/myjqlserver.c) has a thread for each client, which
-- takes get, set and del requests on a socket and calls the store (src/myjql.c) inside one mutex.
-- The store keeps strings (src/str.c) as chains of chunks in a table, records of two strings in a
-- second table (src/table.c), and a B+ tree of record ids sorted by key (src/b_tree.c). A table is a
-- file of slotted pages (src/block.c) with a hash map of pages by free space (src/hash_map.c). Every
-- file is reached through a pool of cached pages (src/buffer_pool.c) over page-sized file operations
-- (src/file_io.c).
--
-- The library.
--   Common       shared names, Boolean tests, lists over the native numbers. Run: code that changes a
--                state and may fail.
--   PageStore    the pages of one file as a pool shows them to the code above it.
--   FileIo       include/file_io.h, src/file_io.c. Pages: the file as a sequence of pages.
--   BufferPool   include/buffer_pool.h, src/buffer_pool.c. Slots and Recency: the slots by address
--                and the LRU order. Cache: what a pool stands for. Replace, GetPage, Release and
--                Lifetime: its operations.
--   Block        include/block.h, src/block.c. Memory: the loops over bytes and ItemIDs. Items: the
--                items of a block and its invariant. New and Delete: the two operations.
--   HashMap      include/hash_map.h, src/hash_map.c: the structs, the pages, and hash_table_init.
--                Insert, PopLowerBound and Pop: the other operations. LowerBound and Taken: the
--                page that is taken. Fresh: a new map. Chain: the insertion into a chain.
--   Server       main/myjqlserver.c, InstanceThread: the thread of a client, over the store as an
--                interface. Protocol: the answers to a client that keeps to the protocol. Loop: any
--                client. Closed: one that is gone. Threads: the threads, the accept loop and the handler of SIGINT around the
--                mutex, interleaved. Guard and Signal: the invariant of
--                the mutex. Exclusion, Sequence, Progress and Closing: what follows from it.
--   Client       driver/myjqlclient.h, driver/myjqlclient.cpp. Wire and Calls: each call, when the answer
--                of the protocol arrives. Session: a client and the thread that serves it. Lost: a
--                connection that the server has closed. Sample: a store for tests.
--   Shell        main/myjqlshell.cpp. Lines: read_input. Words: the commands. Bounds and Buffers: what is
--                read, and the end of the shell. Typed and Served: the shell, its client and its thread.
--   BTree        include/b_tree.h, src/b_tree.c: nodes and find_index. Arrays, Insert and Remove: what
--                the insertion and the deletion do to the arrays of one or two nodes. Store: the pages
--                and the handlers. Lookup, Grow and Shrink: the operations. Index, Scan and Search: the
--                place of a key and the search. SameSigns, Insertion, Path and Places: the insertion.
--                Split, SplitInner, Removal, Merge and MergeInner: rows and children as sequences.
--                Deletion: the deletion.
--   Table        include/table.h, src/table.c: records in slotted pages with a map of free space. Insert:
--                the insertion into a page with room, and the reading of it.
--   Myjql        src/myjql.c. Rows: records, comparisons and handlers. Ops: the operations. Stored: the
--                table of records. Keys: what is compared. Index: the index under this comparison.
--   Rid          the record ids of include/table.h.
--   Str          include/str.h, src/str.c. Chain: chunks and the characters they hold. Reader and
--                Writer: the operations. Stored: chunks as bytes in a table of src/table.c.
-- The functions keep the names that they have in the code; a file's comment says how its state is
-- modelled.
--
-- Representation. An off_t, a size_t and a short are their two's complement patterns, with the wrap
-- written out where the code computes; -1 is `minus_one`. A page holds a value of the type that the
-- caller casts it to, so the casts themselves and the byte layout of a page are not modelled, except
-- in Block, whose items are bytes, and for the records of a table (Str.Stored and Myjql.Stored). A
-- `Page *` is the index of its slot. Undefined behaviour (a NULL file, no slot left, a read of a
-- record that is not there) is the result `none`.
--
-- Fuel. compare_string_record takes more fuel than its first string has characters; delete_string
-- takes more than its string has chunks; the loops of hash_table_insert and hash_table_pop take more
-- than their chain has blocks; instance_thread takes more than there are results of recv; the shell
-- takes more than stdin has characters; the operations of the index take more than its height, and
-- those of the store more than each of these. All other loops recur on the rounds left or on the
-- list that they go through.
--
-- Not modelled: main of the server before its loop, the control handler of Windows and the calls of
-- the system and of the C library, which are results in the model; the output of diagnostics. In
-- Server.Threads the code of a thread between its critical sections is one phase. The index, the
-- maps and the tables stand on PageStore, which holds every page and never runs out of slots. That a
-- table reads back what was inserted in it is stated for a page with room only, and the answers of
-- the store are not stated; the operations of the tables are parameters of the strings and of the
-- store, filled by those of src/table.c in Str.Stored and Myjql.Stored. That the keys of a whole
-- tree stay in order under insertion and deletion is not stated.
pub mod BTree
pub mod Block
pub mod BufferPool
pub mod Client
pub mod Common
pub mod FileIo
pub mod HashMap
pub mod Myjql
pub mod PageStore
pub mod Rid
pub mod Server
pub mod Shell
pub mod Str
pub mod Table
