-- ===== src/Tests.antt =====
-- Concrete machines and files, the runs on them, and each result at a concrete input.
pub mod Machine
pub mod Stores
pub mod Graphs
pub mod Created
pub mod Databases
pub mod Arrays
pub mod Tables
pub mod Words
pub mod Trees
pub mod Forests
mod Full
pub mod Chains
pub mod Tries
pub mod Shells
