-- ===== src/Domain/Graph.antt =====
-- The transition table of octora-api/src/domain/execution-state-machine.ts as a graph.
use octora.Base.{◌≡◌, true, arith}
use octora.Domain.{ExecutionState, draft, is_state}

pub is_state_iff : (a b : ExecutionState) → is_state a b ≡ true → a ≡ b
is_state_iff draft b h = ground arith
is_state_iff _ b h = ground arith
