-- ===== src/Tests.antt =====
-- Settings, services and states of the world to try the theorems on, and each theorem there.
pub mod Worlds
mod Deliveries
mod Incidents
mod Queues
mod Directories
mod Operations
