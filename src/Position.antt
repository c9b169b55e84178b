-- ===== src/Position.antt =====
-- octora-api/src/modules/positions: the position service, its replies, caps and controller.
pub mod Reply
pub mod Caps
pub mod Service
pub mod Rules
pub mod Outcome
pub mod Calls
pub mod Refusals
pub mod Reads
pub mod Sound
pub mod Creates
pub mod Keeps
