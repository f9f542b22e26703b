-- ===== src/Wire/Safety.antt =====
-- Which buffers the parser reads within their bounds, and what malformed input does.
pub mod Rules
pub mod Account
pub mod Headers
pub mod Bounds
pub mod Lists
pub mod NullPackets
