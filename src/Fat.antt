-- ===== src/Fat.antt =====
-- fs/fat12.c, the FAT12 file system.
pub mod Table
pub mod Names
pub mod Cwd
pub mod Volume
pub mod Dir
pub mod File
pub mod Tree
pub mod Path
pub mod Walks
pub mod Memory
