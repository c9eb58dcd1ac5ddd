-- ===== src/Util.antt =====
-- kernel/src/util: the memory and the text helpers.
pub mod Bytes
pub mod Text
