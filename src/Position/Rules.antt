-- ===== src/Position/Rules.antt =====
-- Rules to run the position service on one position, one for each call that the service makes.
-- A proof follows the code: each rule takes what is known of the position before the call, and
-- hands on what is known after it.
mod Known
mod Writes
mod Run
pub use Known.*
pub use Writes.*
pub use Run.*
