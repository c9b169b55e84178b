-- ===== src/SolanaTx/Settles.antt =====
-- How a submission of octora-api/src/common/solana-tx.ts ends, what it sends and how long it waits.
use octora.Base.{ℕ, zero, suc, ◌+◌, ◌-◌, ◌*◌, ◌^◌, ◌≤◌, String, ap, Bool, none, List, [], arith}
use octora.Base.Effect.{Result}
use octora.Recovery.{or_else}
use octora.SolanaTx.Fees.{Simulation, pick_priority_fee, micro_lamports_cap}
use octora.SolanaTx.{
  SubmitConfirmedOptions, Attempt, Event, Submission, attempt_once, submit_loop, submit_confirmed,
  cu_limit,
}
use octora.SolanaTx.Loop.{
  count_sends, total_wait, attempt_once-sends, SettlesAs, submit_loop-settles, submit_loop-bounds,
}

abbrev pub attempts_of : SubmitConfirmedOptions → ℕ
attempts_of opts = or_else opts.max_attempts 3

module _ (scale : ℕ → ℕ) (opts : SubmitConfirmedOptions) (simulation : Result String Simulation)
    (samples : Result String (List ℕ)) (rpc : ℕ → Attempt) where
  abbrev pub once_of : ℕ → Submission String
  once_of n =
      attempt_once (cu_limit scale opts simulation)
        (pick_priority_fee (or_else opts.max_priority_fee_micro_lamports micro_lamports_cap)
          samples)
        opts.signers (rpc n)

  -- What an attempt gives on its own.
  abbrev pub answer_of : ℕ → Result String String
  answer_of n = (once_of n []).0

module _ (matches : String → String → Bool) (scale : ℕ → ℕ) (opts : SubmitConfirmedOptions)
    (simulation : Result String Simulation) (samples : Result String (List ℕ))
    (rpc : ℕ → Attempt) where
  -- Where at least one attempt is allowed, the submission ends with the answer of one of them: the first
  -- that succeeds, or fails with an error that is not worth another attempt, or is the last one.
  pub submit_confirmed-settles :
      (events : List Event)
      → 1 ≤ (attempts_of opts)
      → SettlesAs matches
          (attempts_of opts)
          (answer_of scale opts simulation samples rpc)
          1
          (submit_confirmed matches scale opts simulation samples rpc events).0
  unfolding submit_confirmed
  submit_confirmed-settles events h = settle (attempts_of opts) h
    where
      settle :
          (m : ℕ)
          → 1 ≤ m
          → SettlesAs matches m
              (answer_of scale opts simulation samples rpc)
              1
              (submit_loop matches (once_of scale opts simulation samples rpc) m m 1 none events).0
      settle zero l = absurd (omega (arith, l))
      settle (suc m) l =
          submit_loop-settles matches (suc m) (answer_of scale opts simulation samples rpc)
            (once_of scale opts simulation samples rpc)
            (λ n later. (attempt_once-sends _ _ _ (rpc n) later).2) m 1 none events (omega arith)

  -- At most the allowed attempts send a transaction, and all waits together are less than half of 250
  -- milliseconds times 3 to the number of retries.
  pub submit_confirmed-bounds :
      1 ≤ (attempts_of opts)
      → (count_sends (submit_confirmed matches scale opts simulation samples rpc []).1
          ≤ (attempts_of opts))
        × (2 * total_wait (submit_confirmed matches scale opts simulation samples rpc []).1 + 250
            ≤ 250 * 3 ^ ((attempts_of opts) - 1))
  unfolding submit_confirmed
  submit_confirmed-bounds h = bounds (attempts_of opts) h
    where
      bounds :
          (m : ℕ)
          → 1 ≤ m
          → (count_sends
                (submit_loop matches (once_of scale opts simulation samples rpc) m m 1 none []).1
              ≤ m)
            × (2
                    * total_wait
                        (submit_loop matches
                          (once_of scale opts simulation samples rpc)
                          m
                          m
                          1
                          none
                          []).1
                  + 250
                ≤ 250 * 3 ^ (m - 1))
      bounds zero l = absurd (omega (arith, l))
      bounds (suc m) l =
          let r =
            submit_loop-bounds matches (suc m) (answer_of scale opts simulation samples rpc)
              (once_of scale opts simulation samples rpc)
              (λ n later. (attempt_once-sends _ _ _ (rpc n) later).2)
              (λ n later. (
                (attempt_once-sends _ _ _ (rpc n) later).0,
                (attempt_once-sends _ _ _ (rpc n) later).1,
              ))
              m 0 none [] (omega arith) (omega arith) in
          (
            omega (arith, r.0),
            omega (arith, r.1, ap (λ k. 3 ^ k) {x = 0 + m} {y = suc m - 1} (omega arith)),
          )
