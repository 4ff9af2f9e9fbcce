-- ===== src/Tests.antt =====
-- The theorems at concrete inputs.
pub mod Toy
pub mod Ideal
pub mod Mint
pub mod Canon
pub mod Gate
pub mod Router
pub mod Forest
pub mod Fees
pub mod Ledger
pub mod Manifest
pub mod Keys
pub mod Bridge
pub mod Unread
