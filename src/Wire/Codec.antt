-- ===== src/Wire/Codec.antt =====
-- wire/encode.go and wire/decode.go: the codec that walks a Go type by reflection.
pub mod Types
pub mod Marshal
pub mod Unmarshal
pub mod Reading
pub mod Shape
pub mod Pieces
pub mod Elements
pub mod RoundTrip
