-- ===== src/Relayer.antt =====
-- The withdrawal relayer, octora-api/src/modules/relayer: relayer.service.ts with the registry of
-- nullifier-registry.ts and the table of root-seen.repository.ts.
--
-- `processWithdrawal` runs up to its first `await` in `begin`, and from there to the next one in
-- each `advance`, so that any number of withdrawals can be under way in any order. What the
-- chain, the prover and the curve answer comes from outside.
pub mod Checks
pub mod Pipeline
pub mod Gate
pub mod Once
pub mod Safe
pub mod Reached
pub mod Cleared
pub mod Binding
pub mod Bytes
pub mod Health
pub mod Deposits
mod Tests
use octora.Base.{
  ℕ, suc, ◌+◌, ◌-◌, ◌/◌, String, Bool, true, false, Option, none, some, List, [], ◌∷◌, length, ltb,
  if◌then◌else◌, ◌===◌, ◌==◌,
}
use octora.Base.Integers.{ℤ, less, same, ◌-ℤ◌}
use octora.Base.Table.{lookup, insert, erase}
use octora.Base.Effect.{Result, ok, err}
use octora.Recovery.{or_else}

pub record WithdrawRequest (Proof : Type 0) : Type 0 where
  pub proof : Proof
  pub public_signals : List String
  pub root : String
  pub nullifier_hash : String
  pub recipient : String
  pub relayer : String
  pub fee : String

-- `client` is the address of the hot wallet once the client is initialised.
pub record RelayerConfig : Type 0 where
  pub client : Option String
  pub min_fee_lamports : ℤ
  pub pool_denomination : ℤ
  pub privacy_delay_ms : Option ℕ
  pub has_root_seen_repo : Bool

-- `big_int` is `BigInt(text)`, and `field_hash` is `new PublicKey(text)` with `pubkeyToFieldHash`:
-- no value where they throw. `verify` is `verifyWithdrawProof`.
pub record Crypto (Proof : Type 0) : Type 0 where
  pub big_int : String → Option ℤ
  pub to_text : ℤ → String
  pub field_hash : String → Option ℤ
  pub verify : Proof → List String → Result String Bool

-- What the outside answers to one step: `isNullifierSpentOnChain`, the current slot (none
-- where there is neither a slot provider nor a client), `submitWithdrawalTx`.
pub record Network (Proof : Type 0) : Type 0 where
  pub is_spent_on_chain : String → Result String Bool
  pub slot : Result String (Option ℕ)
  pub submit : WithdrawRequest Proof → Result String String

pub data ParityReason : Type 0 where
  wrong_count : ℕ → ParityReason
  root_mismatch nullifier_mismatch fee_mismatch recipient_mismatch relayer_mismatch : ParityReason
  parse_error : ParityReason

-- The `error` texts of a `WithdrawResult`.
pub data Failure : Type 0 where
  foreign_relayer invalid_fee fee_below_minimum already_spent invalid_proof : Failure
  signal_mismatch : ParityReason → Failure
  privacy_delay : (elapsed_slots wait_slots : ℕ) → Failure
  verification_error submission_failed : String → Failure

pub record WithdrawResult : Type 0 where
  pub success : Bool
  pub tx_signature : Option String
  pub nullifier_hash : String
  pub recipient : String
  pub amount_lamports : String
  pub fee_lamports : String
  pub error : Option Failure

pub data Stage : Type 0 where
  found_spent asking_chain comparing delaying verifying submitting : Stage
  marking : String → Stage

pub record Job (Proof : Type 0) : Type 0 where
  pub request : WithdrawRequest Proof
  pub stage : Stage

-- `cache` is the registry's map from a nullifier to the signature that spent it. `submissions`
-- is not in the code: the nullifiers of all calls of `submitWithdrawalTx` that have ended, the last one
-- first, and whether the call returned a signature. One that threw may have landed all the same, where
-- its confirmation was lost, or may land later; the code cannot tell, and neither does the model.
pub record RelayerState (Proof : Type 0) : Type 0 where
  pub in_flight : List (String × Job Proof)
  pub cache : List (String × String)
  pub roots : List (String × ℕ)
  pub pending_withdrawals : ℕ
  pub total_processed : ℕ
  pub submissions : List (String × Bool)
