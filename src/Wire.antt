-- ===== src/Wire.antt =====
-- The encoding of packets: pkg/mqtt/length.go, header.go, string.go.
pub mod Length
pub mod Header
pub mod Binary
pub mod Text
