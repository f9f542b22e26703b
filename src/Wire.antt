-- ===== src/Wire.antt =====
-- The wire format: system/serialize.cpp over the structures of dto/dto_struct.h.
pub mod Host
pub mod Reader
pub mod ClassType
pub mod Dto
pub mod Decode
pub mod Encode
pub mod RoundTrip
pub mod Safety
pub mod Orders
mod Tests
