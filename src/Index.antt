-- ===== src/Index.antt =====
-- bplus_index.h and bplus_index.cpp: the tree of the inodes of one flush, in a file.
pub mod Memory
pub mod Nodes
pub mod Entries
pub mod Rank
pub mod Keys
pub mod Insert
pub mod Store
pub mod Halves
pub mod Order
pub mod Frame
pub mod RootSplit
pub mod LeafSplit
pub mod NewRoot
pub mod FullRoot
pub mod Split
pub mod Add
pub mod Cells
pub mod AddKey
pub mod Started
pub mod Build
