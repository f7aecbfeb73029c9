-- ===== src/TreeLoader.antt =====
-- bplus_index_loader.cpp: the search for the latest version of a file in the trees on disk.
pub mod Search
pub mod Pick
pub mod Descent
pub mod Changed
pub mod Stored
pub mod Added
pub mod Taken
pub mod Newest
pub mod Reported
pub mod Listing
pub mod Times
pub mod Latest
pub mod ReadBlocks
pub mod ReadInode
pub mod Written
pub mod Children
pub mod ListWritten
pub mod Files
