-- ===== src/Btree.antt =====
-- src/db/store/btree.c: the copy-on-write B+ tree on 64-byte pages. `Search` is the scans of one
-- page, `Leaf` and `Branch` the changes of one, `Walk` the walks, `Tree` the operations of btree.h.
pub mod Search
pub mod Leaf
pub mod Branch
pub mod Walk
pub mod Tree
