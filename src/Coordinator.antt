-- ===== src/Coordinator.antt =====
-- src/coordinator.rs: the task that owns the players, the shines and the channels to the clients.
pub mod State
pub mod Shines
pub mod Players
pub mod Handle
pub mod Invariant
pub mod SafePlayers
pub mod Safe
pub mod Delivery
pub mod Sync
pub mod Setup
pub mod Admission
pub mod Quiet
pub mod Roster
pub mod RefinesPlayers
pub mod Refines
pub mod Registration
pub mod Room
pub mod Shutdown
pub mod Order
