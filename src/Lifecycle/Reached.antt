-- ===== src/Lifecycle/Reached.antt =====
-- What holds in every store that the service and the worker can reach.
use octora.Base.{ℕ, String, ◌≡◌, ◌⊎◌}
use octora.Base.Table.{lookup}
use octora.Domain.{ExecutionState, draft, indexing, active, completed, failed}
use octora.Store.{World, PositionRow}
use octora.Platform.{Platform}
use octora.Position.Caps.{BetaCapsConfig}
use octora.Position.Sound.{IsSound, Rests}
use octora.Position.Keeps.{
  claim_position-IsSound, withdraw_close_position-IsSound, execute_signed_intent-IsSound,
  get_position-IsSound, create_draft-IsSound,
}
use octora.Worker.Keeps.{tick-IsSound}
use octora.Lifecycle.{
  deposits, claims, withdraws, perform, Step, creates, orders, reads, ticks, passes, Reach, here,
  next, empty,
}

module _ {F : Type 0} (platform : Platform F) (caps : BetaCapsConfig F) where
  -- Every call, read, tick and clock move keeps the store sound, whatever it is given and however
  -- the adapter, the executor and the node answer.
  pub Step-IsSound : {w v : World} → Step platform caps w v → IsSound w → IsSound v
  unfolding perform
  Step-IsSound (creates input) sound = create_draft-IsSound platform sound caps input
  Step-IsSound (orders adapter executor id (deposits message)) sound =
      execute_signed_intent-IsSound platform id sound adapter executor message
  Step-IsSound (orders adapter executor id claims) sound =
      claim_position-IsSound platform adapter executor id sound
  Step-IsSound (orders adapter executor id withdraws) sound =
      withdraw_close_position-IsSound platform adapter executor id sound
  Step-IsSound (reads id) sound = get_position-IsSound platform id sound
  Step-IsSound {w = w} (ticks rpc last now) sound = tick-IsSound platform rpc last now w sound
  Step-IsSound {w = w} (passes stamp) sound = record {
    unique = sound.unique;
    rests = λ id p e. stamped_rest (sound.rests id p e);
  }
    where
      stamped_rest :
          {id : String} {p : PositionRow} → Rests w id p → Rests (record w { stamp = stamp }) id p
      stamped_rest r = record { own = r.own; row = r.row; session = r.session; rest = r.rest }

  empty-IsSound : (stamp : ℕ) → IsSound (empty stamp)
  unfolding lookup
  empty-IsSound stamp = record { unique = tt; rests = λ id p e. absurd (cc) }

  -- Every store that can be reached from the empty one is sound.
  pub Reach-IsSound : {stamp : ℕ} {w : World} → Reach platform caps (empty stamp) w → IsSound w
  Reach-IsSound {stamp} here = empty-IsSound stamp
  Reach-IsSound (next r s) = Step-IsSound s (Reach-IsSound r)

-- The states in which a position may be found between two calls.
abbrev pub IsSteady : ExecutionState → Type 0
IsSteady x = (x ≡ draft) ⊎ (x ≡ indexing) ⊎ (x ≡ active) ⊎ (x ≡ completed) ⊎ (x ≡ failed)
