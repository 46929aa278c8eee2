-- ===== src/Utils.antt =====
-- source/kernel/utils.c: conversions, strings, and blocks of memory.
pub mod Buffers
pub mod Strings
pub mod Numbers
pub mod Format
pub mod Hash
