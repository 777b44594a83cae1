-- ===== src/Neofs.antt =====
-- internal/neofs/client.go: listings, searches, sessions and ranged reads over the NeoFS client.
pub mod Linear
pub mod Listing
pub mod Objects
pub mod Range
pub mod Ranged
pub mod Scan
pub mod Search
pub mod Session
