-- ===== src/Examples.antt =====
-- Runs of the modelled code on concrete inputs.
pub mod Data
mod Prefixes
pub mod Messages
pub mod Events
pub mod Streams
mod Queues
pub mod Routers
mod Communities
mod Families
mod Stores
mod Readers
