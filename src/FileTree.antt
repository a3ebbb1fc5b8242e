-- ===== src/FileTree.antt =====
-- The file system simulator, Computer_Science-360/lab1/lab1_hutchins.c.
pub mod Tree
pub mod Paths
pub mod Commands
mod Children
mod Making
mod Removing
mod Tests
