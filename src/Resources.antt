-- ===== src/Resources.antt =====
-- The Kubernetes objects that the operator asks for.
pub mod Broker
pub mod Coordinator
pub mod Storage
pub mod Laws
