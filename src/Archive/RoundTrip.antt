-- ===== src/Archive/RoundTrip.antt =====
-- What the packer of src/archive.rs writes, its scan accepts, and its files are read back.
pub mod Stored
pub mod Reached
pub mod Files
pub mod Cuts
pub mod Sizes
pub mod Entries
pub mod Packed
pub mod Walk
pub mod Scanned
pub mod ReadBack
pub mod Restored
