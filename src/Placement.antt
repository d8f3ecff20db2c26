-- ===== src/Placement.antt =====
-- scheduler/placement.
pub mod Filter
pub mod Rules
pub mod Answers
pub mod Places
pub mod Manager
pub mod Chosen
pub mod Placed
