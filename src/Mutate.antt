-- ===== src/Mutate.antt =====
-- FuzzerMutate.cpp
pub mod Edit
pub mod Frame
pub mod Bytes
pub mod Shuffle
pub mod Parts
pub mod Words
pub mod Compares
pub mod State
pub mod Dispatch
pub mod Cross
pub mod Ascii
pub mod Binary
