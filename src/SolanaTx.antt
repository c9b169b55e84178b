-- ===== src/SolanaTx.antt =====
-- Submitting a transaction until it is confirmed, octora-api/src/common/solana-tx.ts.
pub mod Fees
pub mod Loop
pub mod Settles
pub mod Quarter
mod Tests
use octora.Base.{
  ℕ, zero, suc, ◌+◌, ◌-◌, ◌*◌, ◌^◌, String, Bool, true, false, not, ◌&&◌, ◌||◌, Option, none, some,
  List, [], ◌∷◌, ◌==◌, ◌===◌, ◌&◌, if◌then◌else◌,
}
use octora.Base.Effect.{Result, ok, err, Effect, pure, throw, lift, guard, ◌>>=◌, ◌>>◌}
use octora.Recovery.{or_else}
use Fees.{Simulation, estimate_compute_units, pick_priority_fee, micro_lamports_cap}

pub record SubmitConfirmedOptions : Type 0 where
  pub compute_unit_limit : Option ℕ
  pub skip_simulation : Bool
  pub max_priority_fee_micro_lamports : Option ℕ
  pub max_attempts : Option ℕ
  pub signers : List String

-- What is compiled and signed in one attempt.
pub record SignedMessage : Type 0 where
  pub units : ℕ
  pub micro_lamports : ℕ
  pub blockhash : String
  pub final_signers : List String

-- How the node answers in one attempt; an error is its message. `confirm` gives the error of the
-- program, where there is one.
pub record Attempt : Type 0 where
  pub get_latest_blockhash : Result String String
  pub sign : SignedMessage → Result String String
  pub send_transaction : Result String String
  pub confirm_transaction : Result String (Option String)

-- What an observer of the network sees, the latest first.
pub data Event : Type 0 where
  sends : (transaction : String) → Event
  waits : (delay_ms : ℕ) → Event

abbrev pub Submission : Type 0 → Type 0
Submission = Effect (List Event) String

abbrev pub retryable_patterns : List String
retryable_patterns =
    "BlockhashNotFound" ∷ "Blockhash not found" ∷ "NodeUnhealthy" ∷ "node is behind"
    ∷ "unable to send transaction" ∷ "failed to fetch" ∷ "econnreset" ∷ "etimedout"
    ∷ "service unavailable" ∷ []

abbrev pub is_seen : String → List String → Bool
is_seen key [] = false
is_seen key (k ∷ keys) = (k === key) || is_seen key keys

-- Each key once, in the order in which they come.
unfoldable pub dedupe : List String → List String → List String
dedupe seen [] = []
dedupe seen (key ∷ keys) =
    let again = dedupe seen keys in
    let first = key ∷ dedupe (key ∷ seen) keys in if is_seen key seen then again else first

abbrev pub note : Event → Submission (Unit {0})
note event events = (ok tt, event ∷ events)

-- Each attempt asks for a fresh blockhash.
unfoldable pub attempt_once : ℕ → ℕ → List String → Attempt → Submission String
unfolding ◌>>=◌
attempt_once cu_limit micro_lamports signers answers = do
  blockhash ← lift answers.get_latest_blockhash
  transaction ← lift (
      answers.sign (record {
        units = cu_limit;
        micro_lamports = micro_lamports;
        blockhash = blockhash;
        final_signers = dedupe [] signers;
      }))
  note (sends transaction)
  signature ← lift answers.send_transaction
  failure ← lift answers.confirm_transaction
  elim failure [
    | none ↦ pure signature
    | some error ↦ throw ("Tx " & signature & " failed on-chain: " & error)
  ]

-- `250 * 3 ** (attempt - 1)`
abbrev pub delay_ms : ℕ → ℕ
delay_ms attempt = 250 * 3 ^ (attempt - 1)

abbrev pub cu_limit : (ℕ → ℕ) → SubmitConfirmedOptions → Result String Simulation → ℕ
cu_limit scale opts simulation = elim opts.compute_unit_limit [
  | some units ↦ units
  | none ↦ if opts.skip_simulation then 400000 else estimate_compute_units scale simulation
]

-- `pattern.test(message)` is the library's; it takes the pattern first.
module _ (matches : String → String → Bool) where
  abbrev pub matches_some : List String → String → Bool
  matches_some [] message = false
  matches_some (p ∷ patterns) message = matches p message || matches_some patterns message

  abbrev pub is_retryable : String → Bool
  is_retryable message = matches_some retryable_patterns message

  -- `once` is the body of the `try`; the loop runs while attempts remain.
  unfoldable pub submit_loop :
      (once : ℕ → Submission String) (max_attempts remaining attempt : ℕ) (last : Option String)
      → Submission String
  submit_loop once max_attempts zero attempt last events =
      (err (or_else last "submitConfirmed: exhausted retries with no recorded error"), events)
  submit_loop once max_attempts (suc remaining) attempt last events =
      let (answer, later) = once attempt events in
      elim answer [
        | ok signature ↦ (ok signature, later)
        | err error ↦
            let again =
              submit_loop once max_attempts remaining (suc attempt) (some error)
                (waits (delay_ms attempt) ∷ later) in
            if not (is_retryable error) || (attempt == max_attempts)
            then (err error, later)
            else again
      ]

  -- `simulation` and `samples` are the node's answers before the loop, `rpc` those in each attempt.
  unfoldable pub submit_confirmed :
      (scale : ℕ → ℕ)
      → SubmitConfirmedOptions
      → Result String Simulation
      → Result String (List ℕ)
      → (ℕ → Attempt)
      → Submission String
  submit_confirmed scale opts simulation samples rpc =
      let units = cu_limit scale opts simulation in
      let fee =
        pick_priority_fee (or_else opts.max_priority_fee_micro_lamports micro_lamports_cap)
          samples in
      let attempts = or_else opts.max_attempts 3 in
      submit_loop (λ n. attempt_once units fee opts.signers (rpc n)) attempts attempts 1 none
