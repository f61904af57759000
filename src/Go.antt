-- ===== src/Go.antt =====
-- The parts of Go's standard library that the program computes with, over texts as byte lists.
pub mod Strings
pub mod Filepath
pub mod Net
pub mod Sort
