-- ===== src/Sounds.antt =====
-- alarm-daemon/src/audio/sounds.rs: sound ids, their files, and the listing.
pub mod Paths
pub mod Library
pub mod Resolve
pub mod Order
pub mod Members
pub mod Listing
pub mod Playable
pub mod Complete
pub mod Unordered
pub mod Names
pub mod Registry
pub mod Registered
pub mod Offered
pub mod Accepted
pub mod Removed
pub mod Memory
