-- ===== src/FileSystem.antt =====
-- The file system of 5. Virtual File System/fs.c over the disk of disk.c.
pub mod State
pub mod Directory
pub mod Disk
pub mod Transfer
pub mod Chain
pub mod Valid
pub mod OpenClose
pub mod Delete
pub mod CreateSearch
pub mod Created
pub mod Create
pub mod Contents
pub mod Grow
pub mod ReadWrite
pub mod Write
pub mod Read
pub mod Truncate
pub mod Layout
pub mod Images
pub mod Mount
pub mod TableBlocks
pub mod Remount
pub mod Format
pub mod LeftOpen
pub mod WriteValid
pub mod WriteKeeps
mod Tests
mod MountTests
