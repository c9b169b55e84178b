-- ===== src/Relayer/Pipeline.antt =====
-- `processWithdrawal`, `doProcessWithdrawal` and `validateProof` of
-- octora-api/src/modules/relayer/relayer.service.ts, one function per stretch between two awaits.
use octora.Base.{
  ℕ, suc, ◌-◌, String, Bool, true, false, Option, none, some, List, ◌∷◌, if◌then◌else◌,
}
use octora.Base.Integers.{ℤ, ◌-ℤ◌}
use octora.Base.Table.{lookup, insert, erase}
use octora.Base.Effect.{Result, ok, err}
use octora.Relayer.{
  WithdrawRequest, RelayerConfig, Crypto, Network, ParityReason, Failure, already_spent,
  invalid_proof, signal_mismatch, privacy_delay, verification_error, submission_failed,
  WithdrawResult, Stage, found_spent, asking_chain, comparing, delaying, verifying, submitting,
  marking, Job, RelayerState,
}
use octora.Relayer.Checks.{
  has_key, check_privacy_delay, check_public_signals_parity, failure, guard_request,
}

-- What a step of the pipeline comes to.
pub data Turn (Proof : Type 0) : Type 0 where
  goes : Stage → RelayerState Proof → Turn Proof
  ends : Result String WithdrawResult → RelayerState Proof → Turn Proof

pub data Reply : Type 0 where
  refused : WithdrawResult → Reply
  joined started : Reply

module _ {Proof : Type 0} (crypto : Crypto Proof) (config : RelayerConfig) where
  abbrev fails : WithdrawRequest Proof → Failure → RelayerState Proof → Turn Proof
  fails request error s = ends (ok (failure crypto request error)) s

  -- `isSpent` after a cache miss; a nullifier that is found spent goes into the cache.
  abbrev turn_chain : WithdrawRequest Proof → Result String Bool → RelayerState Proof → Turn Proof
  turn_chain request (err e) s = ends (err e) s
  turn_chain request (ok true) s =
      fails request already_spent
        (record s { cache = insert request.nullifier_hash "on-chain" s.cache })
  turn_chain request (ok false) s = goes comparing s

  abbrev turn_parity : WithdrawRequest Proof → Option ParityReason → RelayerState Proof → Turn Proof
  turn_parity request (some reason) s = fails request (signal_mismatch reason) s
  turn_parity request none s = goes delaying s

  abbrev turn_delay :
      WithdrawRequest Proof
      → Result String (Option (ℕ × ℕ)) × List (String × ℕ)
      → RelayerState Proof
      → Turn Proof
  turn_delay request (err e, roots) s = ends (err e) (record s { roots = roots })
  turn_delay request (ok (some (elapsed, wait)), roots) s =
      fails request (privacy_delay elapsed wait) (record s { roots = roots })
  turn_delay request (ok none, roots) s = goes verifying (record s { roots = roots })

  abbrev turn_verify : WithdrawRequest Proof → Result String Bool → RelayerState Proof → Turn Proof
  turn_verify request (err e) s = fails request (verification_error e) s
  turn_verify request (ok false) s = fails request invalid_proof s
  turn_verify request (ok true) s =
      goes submitting (record s { pending_withdrawals = suc s.pending_withdrawals })

  -- `pendingWithdrawals--` undoes the `++` of the same pipeline, in `turn_verify`.
  abbrev turn_submit :
      WithdrawRequest Proof → Result String String → RelayerState Proof → Turn Proof
  turn_submit request (err e) s = fails request (submission_failed e) (record s {
    pending_withdrawals = s.pending_withdrawals - 1;
    submissions = (request.nullifier_hash, false) ∷ s.submissions;
  })
  turn_submit request (ok signature) s =
      goes (marking signature)
        (record s { submissions = (request.nullifier_hash, true) ∷ s.submissions })

  -- `BigInt(request.fee)` parses here, since the guard has parsed it.
  abbrev net_amount : Option ℤ → String
  net_amount none = "0"
  net_amount (some fee) = crypto.to_text (config.pool_denomination -ℤ fee)

  unfoldable pub success_result : WithdrawRequest Proof → String → WithdrawResult
  success_result request signature = record {
    success = true;
    tx_signature = some signature;
    nullifier_hash = request.nullifier_hash;
    recipient = request.recipient;
    amount_lamports = net_amount (crypto.big_int request.fee);
    fee_lamports = request.fee;
    error = none;
  }

  abbrev turn_mark : WithdrawRequest Proof → String → RelayerState Proof → Turn Proof
  turn_mark request signature s = ends (ok (success_result request signature)) (record s {
    cache = insert request.nullifier_hash signature s.cache;
    pending_withdrawals = s.pending_withdrawals - 1;
    total_processed = suc s.total_processed;
  })

  -- `doProcessWithdrawal` from one `await` to the next.
  unfoldable pub turn :
      Network Proof → WithdrawRequest Proof → Stage → RelayerState Proof → Turn Proof
  turn network request found_spent s = fails request already_spent s
  turn network request asking_chain s =
      turn_chain request (network.is_spent_on_chain request.nullifier_hash) s
  turn network request comparing s =
      turn_parity request (check_public_signals_parity crypto request) s
  turn network request delaying s =
      turn_delay request (check_privacy_delay config network.slot request.root s.roots) s
  turn network request verifying s =
      turn_verify request (crypto.verify request.proof request.public_signals) s
  turn network request submitting s = turn_submit request (network.submit request) s
  turn network request (marking signature) s = turn_mark request signature s

  -- The promise of a pipeline that ends leaves the map.
  abbrev pub settle :
      String → Job Proof → Turn Proof → RelayerState Proof × Option (Result String WithdrawResult)
  settle key job (goes stage s) =
      (record s { in_flight = insert key (record job { stage = stage }) s.in_flight }, none)
  settle key job (ends r s) = (record s { in_flight = erase key s.in_flight }, some r)

  -- The pipeline for this nullifier goes on to its next `await`, or ends with a result.
  unfoldable pub advance :
      Network Proof
      → String
      → RelayerState Proof
      → RelayerState Proof × Option (Result String WithdrawResult)
  advance network key s = elim (lookup key s.in_flight) [
    | none ↦ (s, none)
    | some job ↦ settle key job (turn network job.request job.stage s)
  ]

  abbrev pub first_stage : Bool → Stage
  first_stage true = found_spent
  first_stage false = asking_chain

  -- `processWithdrawal` up to its first `await`.
  unfoldable pub begin : WithdrawRequest Proof → RelayerState Proof → Reply × RelayerState Proof
  begin request s = elim (guard_request crypto config request) [
    | some error ↦ (refused (failure crypto request error), s)
    | none ↦ elim (lookup request.nullifier_hash s.in_flight) [
      | some job ↦ (joined, s)
      | none ↦ (
        started,
        record s {
          in_flight =
              insert request.nullifier_hash
                (record {
                  request = request;
                  stage = first_stage (has_key request.nullifier_hash s.cache);
                })
                s.in_flight;
        },
      )
    ]
  ]

  -- The dry run: valid where there is no failure.
  abbrev dry_verify : Result String Bool → Option Failure
  dry_verify (err e) = some (verification_error e)
  dry_verify (ok false) = some invalid_proof
  dry_verify (ok true) = none

  abbrev dry_run : WithdrawRequest Proof → Option ParityReason → Option Failure
  dry_run request (some reason) = some (signal_mismatch reason)
  dry_run request none = dry_verify (crypto.verify request.proof request.public_signals)

  abbrev dry_chain :
      WithdrawRequest Proof
      → Result String Bool
      → RelayerState Proof
      → Result String (Option Failure) × RelayerState Proof
  dry_chain request (err e) s = (err e, s)
  dry_chain request (ok true) s = (
    ok (some already_spent),
    record s { cache = insert request.nullifier_hash "on-chain" s.cache },
  )
  dry_chain request (ok false) s =
      (ok (dry_run request (check_public_signals_parity crypto request)), s)

  unfoldable pub validate_proof :
      Network Proof
      → WithdrawRequest Proof
      → RelayerState Proof
      → Result String (Option Failure) × RelayerState Proof
  validate_proof network request s = elim (guard_request crypto config request) [
    | some error ↦ (ok (some error), s)
    | none ↦
        if has_key request.nullifier_hash s.cache
        then (ok (some already_spent), s)
        else dry_chain request (network.is_spent_on_chain request.nullifier_hash) s
  ]
