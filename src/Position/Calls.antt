-- ===== src/Position/Calls.antt =====
-- The calls of the position service meet their specification in Position/Outcome.antt.
mod Endings
mod Whole
pub use Endings.*
pub use Whole.*
