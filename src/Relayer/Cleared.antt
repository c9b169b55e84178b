-- ===== src/Relayer/Cleared.antt =====
-- What has been checked of a withdrawal when the relayer pays for it.
use octora.Base.{
  ℕ, suc, String, ◌≡◌, ap, sym, subst, Bool, true, false, none, some, List, arith, ◌===◌,
  Bool-cases, Option-cases, inl, inr,
}
use octora.Base.Table.{lookup, lookup-insert, lookup-erase}
use octora.Base.Effect.{ok}
use octora.Relayer.{
  WithdrawRequest, RelayerConfig, Crypto, Network, RelayerState, Stage, found_spent, asking_chain,
  comparing, delaying, verifying, submitting, marking, Job,
}
use octora.Relayer.Checks.{has_key, guard_request, check_public_signals_parity}
use octora.Relayer.Pipeline.{
  Turn, goes, ends, turn, settle, advance, begin, validate_proof, first_stage,
}
use octora.Relayer.Once.{turn-in_flight, state_of}
use octora.Relayer.Safe.{
  advance_idle, advance_running, begin_refused, begin_joined, begin_started, entry, entered,
  validated_in_flight,
}
use octora.Relayer.Reached.{Step, requests, answers, dry_runs, Reach, here, next, fresh}

module _ {Proof : Type 0} (crypto : Crypto Proof) (config : RelayerConfig) where
  -- The checks that a stage has behind it.
  abbrev pub Cleared : Stage → WithdrawRequest Proof → Type 0
  Cleared delaying request = check_public_signals_parity crypto request ≡ none
  Cleared verifying request = check_public_signals_parity crypto request ≡ none
  Cleared submitting request =
      (check_public_signals_parity crypto request ≡ none)
      × (crypto.verify request.proof request.public_signals ≡ ok true)
  Cleared (marking signature) request =
      (check_public_signals_parity crypto request ≡ none)
      × (crypto.verify request.proof request.public_signals ≡ ok true)
  Cleared stage request = Unit {0}

  abbrev pub AllCleared : RelayerState Proof → Type 0
  AllCleared s =
      (n : String) (job : Job Proof)
      → lookup n s.in_flight ≡ some job
      → (guard_request crypto config job.request ≡ none) × Cleared job.stage job.request

  abbrev TurnCleared : WithdrawRequest Proof → Turn Proof → Type 0
  TurnCleared request (goes stage s) = Cleared stage request
  TurnCleared request (ends r s) = Unit {0}

  turn-Cleared :
      (network : Network Proof) (request : WithdrawRequest Proof) (stage : Stage)
      (s : RelayerState Proof)
      → Cleared stage request
      → TurnCleared request (turn crypto config network request stage s)
  unfolding turn
  turn-Cleared network request found_spent s h = tt
  turn-Cleared network request asking_chain s h = ground arith
  turn-Cleared network request comparing s h = ground arith
  turn-Cleared network request delaying s h = ground arith
  turn-Cleared network request verifying s h = ground arith
  turn-Cleared network request submitting s h = ground arith
  turn-Cleared network request (marking signature) s h = tt

  settle-cleared :
      (s : RelayerState Proof) (key : String) (job : Job Proof) (t : Turn Proof)
      → AllCleared s
      → guard_request crypto config job.request ≡ none
      → (state_of t).in_flight ≡ s.in_flight
      → TurnCleared job.request t
      → AllCleared (settle crypto config key job t).0
  settle-cleared s key job (goes stage s') all passed kept h n j k = elim (Bool-cases (key === n)) [
    | inl e ↦
        let found = lookup-insert key n (record job { stage = stage }) s'.in_flight in
        let same_job : record job { stage = stage } ≡ j = ground (arith, e, k, found) in
        subst (λ x. (guard_request crypto config x.request ≡ none) × Cleared x.stage x.request)
          same_job (passed, h)
    | inr e ↦ all n j (
        ground (arith, e, k, kept, lookup-insert key n (record job { stage = stage }) s'.in_flight))
  ]
  settle-cleared s key job (ends r s') all passed kept h n j k =
      all n j (ground (arith, k, kept, lookup-erase key n s'.in_flight))

  advance-cleared :
      (network : Network Proof) (key : String) (s : RelayerState Proof)
      → AllCleared s
      → AllCleared (advance crypto config network key s).0
  advance-cleared network key s all = elim (Option-cases (lookup key s.in_flight)) [
    | inl h ↦
        subst AllCleared (sym (ap (λ r. r.0) (advance_idle crypto config network key s h))) all
    | inr (job, h) ↦
        subst AllCleared (sym (ap (λ r. r.0) (advance_running crypto config network key s job h))) (
          settle-cleared s key job (turn crypto config network job.request job.stage s) all
            (all key job h).0 (turn-in_flight crypto config network job.request job.stage s)
            (turn-Cleared network job.request job.stage s (all key job h).1))
  ]

  first-Cleared :
      (c : Bool) (request : WithdrawRequest Proof) → Cleared (first_stage crypto config c) request
  first-Cleared true request = tt
  first-Cleared false request = tt

  begin-cleared :
      (request : WithdrawRequest Proof) (s : RelayerState Proof)
      → AllCleared s
      → AllCleared (begin crypto config request s).1
  begin-cleared request s all = elim (Option-cases (guard_request crypto config request)) [
    | inr (error, g) ↦
        subst AllCleared (sym (ap (λ r. r.1) (begin_refused crypto config request s error g))) all
    | inl g ↦ elim (Option-cases (lookup request.nullifier_hash s.in_flight)) [
      | inr (job, h) ↦
          subst AllCleared (sym (ap (λ r. r.1) (begin_joined crypto config request s job g h))) all
      | inl h ↦
          subst AllCleared (sym (ap (λ r. r.1) (begin_started crypto config request s g h)))
            (entered_cleared g)
    ]
  ]
    where
      entered_cleared :
          guard_request crypto config request ≡ none → AllCleared (entered crypto config request s)
      entered_cleared g n j k = elim (Bool-cases (request.nullifier_hash === n)) [
        | inl e ↦
            let found =
              lookup-insert request.nullifier_hash n (entry crypto config request s) s.in_flight in
            let same_job : entry crypto config request s ≡ j = ground (arith, e, k, found) in
            subst (λ x. (guard_request crypto config x.request ≡ none) × Cleared x.stage x.request)
              same_job (g, first-Cleared (has_key request.nullifier_hash s.cache) request)
        | inr e ↦ all n j (
            ground (
              arith,
              e,
              k,
              lookup-insert request.nullifier_hash n (entry crypto config request s) s.in_flight,
            ))
      ]

  fresh-cleared : (roots : List (String × ℕ)) → AllCleared (fresh roots)
  unfolding lookup
  fresh-cleared roots n job k = absurd (cc)

  Step-cleared : {s v : RelayerState Proof} → Step crypto config s v → AllCleared s → AllCleared v
  Step-cleared {s = s} (requests request) all = begin-cleared request s all
  Step-cleared {s = s} (answers network key) all = advance-cleared network key s all
  Step-cleared {s = s} (dry_runs network request) all =
      λ n job k. all n job (rw (← (validated_in_flight crypto config network request s)) k)

  Reach-cleared :
      {roots : List (String × ℕ)} {s : RelayerState Proof}
      → Reach crypto config (fresh roots) s
      → AllCleared s
  Reach-cleared {roots} here = fresh-cleared roots
  Reach-cleared (next r step) = Step-cleared step (Reach-cleared r)

  abbrev pub is_paying : Stage → Bool
  is_paying submitting = true
  is_paying (marking signature) = true
  is_paying stage = false

  paying-Cleared :
      (stage : Stage) (request : WithdrawRequest Proof)
      → is_paying stage ≡ true
      → Cleared stage request
      → (check_public_signals_parity crypto request ≡ none)
        × (crypto.verify request.proof request.public_signals ≡ ok true)
  paying-Cleared submitting request h c = c
  paying-Cleared (marking signature) request h c = c
  paying-Cleared found_spent request h c = absurd (ground (arith, h))
  paying-Cleared asking_chain request h c = absurd (ground (arith, h))
  paying-Cleared comparing request h c = absurd (ground (arith, h))
  paying-Cleared delaying request h c = absurd (ground (arith, h))
  paying-Cleared verifying request h c = absurd (ground (arith, h))

  -- Whenever a pipeline of a reachable relayer is paying out or has just paid, the guard has let
  -- its request pass, its public signals bind the request's own fields, and its proof verifies.
  pub paid_cleared :
      {roots : List (String × ℕ)} {s : RelayerState Proof}
      → Reach crypto config (fresh roots) s
      → (n : String) (job : Job Proof) → lookup n s.in_flight ≡ some job
      → is_paying job.stage ≡ true
      → (guard_request crypto config job.request ≡ none)
        × (check_public_signals_parity crypto job.request ≡ none)
        × (crypto.verify job.request.proof job.request.public_signals ≡ ok true)
  paid_cleared r n job k h =
      let (guarded, cleared) = Reach-cleared r n job k in
      let (matched, verified) = paying-Cleared job.stage job.request h cleared in
      (guarded, matched, verified)

-- A dry run and the guard: what passes the dry run fails in the pipeline only at the privacy gate
-- or at the submission.
module _ {Proof : Type 0} (crypto : Crypto Proof) (config : RelayerConfig) where
  -- A request that the dry run calls valid passes the guard, has no cached nullifier, and goes on
  -- from each stage of the pipeline but the privacy gate and the submission.
  pub validate_proof-turns :
      (network : Network Proof) (request : WithdrawRequest Proof) (s : RelayerState Proof)
      → (validate_proof crypto config network request s).0 ≡ ok none
      → (guard_request crypto config request ≡ none)
        × (has_key request.nullifier_hash s.cache ≡ false)
        × (turn crypto config network request asking_chain s ≡ goes comparing s)
        × (turn crypto config network request comparing s ≡ goes delaying s)
        × (turn crypto config network request verifying s
            ≡ goes submitting (record s { pending_withdrawals = suc s.pending_withdrawals }))
  unfolding validate_proof turn
  validate_proof-turns network request s h = ground (arith, h)
