-- ===== src/Names.antt =====
-- Names and addresses: the ends of broker.go, coordinator.go and storage.go.
pub mod Broker
pub mod Coordinator
pub mod Storage
pub mod Laws
pub mod Addresses
