-- ===== src/Golden.antt =====
-- internal/golden: the identity of a golden image, in fingerprint.go.
pub mod Fingerprint
pub mod Fields
pub mod Roundtrip
pub mod Order
mod Examples
