-- ===== src/Node.antt =====
-- src/nodes.
pub mod Info
pub mod Center
pub mod Friends
pub mod Normal
pub mod Pipeline
pub mod Delivery
pub mod Start
