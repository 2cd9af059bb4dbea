-- ===== src/Output/Patterns.antt =====
-- src/output/openrgb_patterns: what each pattern of the RGB output shows on a zone's LEDs.
pub mod Common
pub mod Single
pub mod Linear
pub mod Grid
pub mod Matrix
pub mod Darkness
pub mod Bytes
pub mod Unlit
pub mod Tests
