-- ===== src/Lib.antt =====
-- Verification of adventure, a graph database on memory-mapped files.
--
-- A database (src/db/adv.c) is two stores: a file of nodes (src/db/store/nodes.c), whose items point
-- to pages of a file of edges (src/db/store/edges.c). A store (src/db/store/store.c, store.h) is a
-- mapped file (src/util/fs.c) with a header of 32 bytes, an allocator of pages and a list of freed
-- pages. A new store also has an empty B+ tree (src/db/store/btree.c), whose overflow pages are
-- stacks (src/db/store/bstack.c). A shell (src/repl) reads lines, finds the command that a line names
-- in a trie (src/struct/trie.c), and runs it on the open database.
--
-- What stands for what:
--   Base, Bits         shared names, C's unsigned widths, lists, `Out` and `Cmd`: a command on a
--                      state that returns, does an access that C does not allow, or hangs
--   Memory             bytes as a function of the address, big-endian words
--   Fs                 src/util/fs.c; the operating system's calls are the parameter `Os`, what is
--                      relied on is `Grants`, with the greatest length that it lets a file have
--   Store              src/db/store/store.h and store.c: `store_write` to `store_copy`, `store_resize`,
--                      `store_extend`, `store_alloc`, `store_free`
--   Open               src/db/store/store.c: `store_open`, `store_close` and the file's header
--   Nodes, Edges       src/db/store/nodes.c and edges.c
--   Adv                src/db/adv.c; sds's formatting is the parameter `Sds`. Adv/Graph says which graph
--                      a database stands for: its nodes are the items from 4 on, since the first four
--                      lie in the root page that store_open writes
--   Page               header words and offsets that btree.c, bstack.c and bvec.c share
--   Btree              src/db/store/btree.c, but for the debug output; Tree/Shape says which pages of
--                      a file are a tree, of any depth
--   Bstack, Bvec       src/db/store/bstack.c and bvec.c
--   Darray             src/struct/darray.c; the C library's allocator is the parameter `Heap`
--   LinkedList         src/struct/list.c and list.h on a heap of elements; `calloc` is a parameter
--   Hashmap            src/struct/hashmap.c; the user's keys are any type, a bucket is the sequence of
--                      its list's entries
--   Trie               src/struct/trie.c; the strings of sds are the parameter `Strings`
--   Shell              src/repl/cmds.c, repl.c and src/main.c; strtok and atoi are the parameter `Libc`
--   Murmur, Math       src/util/murmur3.c and math.h
--   Tests              concrete machines, files and arrays, and each theorem at one of them
--
-- The lists of src/struct/list.c in the store, in the hash map and in the trie are the sequences that
-- LinkedList shows them to stand for.
--
-- The names of functions, structures and fields are those of the source. A pointer into a mapped file
-- is a byte offset and a NULL page is 0, as in the source. Numbers are natural numbers; where C's
-- unsigned arithmetic can wrap, the model takes the result modulo the width. Pointers that the source
-- only passes through (the values of an array) are numbers, 0 being NULL.
--
-- Fuel: `store_alloc` calls itself until the file is long enough; it takes the number of its rounds,
-- and a file of n bytes has n * 2^k after k of them, so k + 1 rounds are enough where the request
-- fits then. The search in `edges_remove` takes one round more than the page has bytes and moves by
-- eight of them in each, and the printing of a node's edges one more than the mapped bytes. A scan
-- of a tree's page takes more rounds than a page of 65535 bytes has items; the recursion on a tree takes its depth. A call of `trie_add` goes one byte deeper with
-- each round, so a round more than the key has bytes is enough.
--
-- Not modelled: JSON loading (src/repl/load.c), which streams a file and prints it; output, the
-- shell's history and logging (src/util/dbg.h); the libraries under lib/, which are other projects'.
-- Memory that only the C library sees (malloc of cursors and list elements) is taken to be there, and
-- free is left out where nothing uses the memory again.
pub mod Base
pub mod Bits
pub mod Memory
pub mod Fs
pub mod Store
pub mod Nodes
pub mod Edges
pub mod Page
pub mod Bstack
pub mod Bvec
pub mod Btree
pub mod Open
pub mod Adv
pub mod Murmur
pub mod Math
pub mod Darray
pub mod LinkedList
pub mod Hashmap
pub mod Trie
pub mod Shell
pub mod Tests
