-- ===== src/Tests.antt =====
-- Concrete inputs, and the properties applied to them.
pub mod Fixture
pub mod Listings
pub mod Layout
pub mod Content
pub mod Attrs
pub mod Nodes
pub mod Snapshots
mod Refreshes
pub mod Mounts
mod Loading
mod Tools
mod Targets
