-- ===== src/Btree/Tree/Split.antt =====
-- The split of a full leaf of src/db/store/btree.c.
pub mod Copy
pub mod Items
pub mod CopyIn
pub mod Halves
pub mod Half
pub mod Cut
pub mod Copies
pub mod Leaf
pub mod Sides
pub mod Root
