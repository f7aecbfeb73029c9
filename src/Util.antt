-- ===== src/Util.antt =====
-- util.h: numbers, clock readings, the names under which inodes are stored, and the checksum of a text.
pub mod Numbers
pub mod Names
pub mod Checksum
