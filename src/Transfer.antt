-- ===== src/Transfer.antt =====
-- crates/transfer: manifests, chunk hashes, the resume bitmap and the local transfer.
pub mod Bitmap
pub mod Manifest
pub mod Hashing
pub mod Copy
pub mod Execute
mod Tests
