-- ===== src/Position/Service.antt =====
-- `createPositionService` of octora-api/src/modules/positions/position.service.ts: the five calls.
mod Steps
mod Draft
mod Deposits
mod Exits
mod Reads
unfoldable pub use Steps.*
unfoldable pub use Draft.*
unfoldable pub use Deposits.*
unfoldable pub use Exits.*
unfoldable pub use Reads.*
