-- ===== src/Text.antt =====
-- The text helpers of Shark_3_0_Qt/src/core/system/system_function.cpp.
pub mod Utf8
pub mod Checks
pub mod Sql
mod Tests
