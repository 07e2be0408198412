-- ===== src/Persistence.antt =====
-- alarm-daemon/src/daemon/persistence: what is stored, and how it is read and written.
pub mod Codec
pub mod RoundTrip
pub mod Laws
pub mod Robust
pub mod Redb
pub mod Store
pub mod Memory
pub mod Durable
pub mod Saves
