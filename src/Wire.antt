-- ===== src/Wire.antt =====
-- wire: the OSCAR protocol's data and its binary codec.
pub mod Codec
pub mod Tlv
pub mod BuddyPrefs
pub mod RateLimit
pub mod Roast
pub mod Flap
pub mod FeedbagItem
mod Tests
