-- ===== src/Runs.antt =====
-- Concrete runs of the models, and the theorems at concrete inputs.
pub mod Headers
pub mod Paths
pub mod Archives
pub mod Streams
pub mod Crypto
pub mod Keys
pub mod Sealed
pub mod Sizes
pub mod Private
pub mod Extract
