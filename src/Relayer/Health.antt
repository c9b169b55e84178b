-- ===== src/Relayer/Health.antt =====
-- What the relayer reports of itself: `status` and `health` of
-- octora-api/src/modules/relayer/relayer.service.ts, and the registry that keeps nullifiers in memory.
use native.Mathlib.Nat.{le-div_iff_mul-le}
use octora.Base.{
  ap, leb→le, le→leb, ℕ, zero, suc, ◌*◌, ◌/◌, ◌≤◌, ◌<◌, ◌≡◌, ◌↔◌, String, Bool, true, false, Option,
  none, some, List, [], ◌∷◌, ◌++◌, arith, length, ltb, leb, if◌then◌else◌,
}
use octora.Base.Integers.{ℤ, pos, negsuc}
use octora.Base.Table.{insert}
use octora.Base.Effect.{Result, ok, err}
use octora.Relayer.{RelayerConfig, RelayerState}
use octora.Relayer.Checks.{has_key}

pub data RelayerHealthIssue : Type 0 where
  client_uninitialized low_balance queue_backed_up : RelayerHealthIssue

pub record RelayerStatus : Type 0 where
  pub public_key : String
  pub balance_lamports : ℕ
  pub pending_withdrawals : ℕ
  pub total_processed : ℕ
  pub nullifier_count : ℕ

pub record RelayerHealth : Type 0 where
  pub healthy : Bool
  pub issues : List RelayerHealthIssue
  pub public_key : String
  pub balance_lamports : ℕ
  pub withdrawals_budget : ℕ
  pub pending_withdrawals : ℕ
  pub in_flight_nullifiers : ℕ
  pub total_processed : ℕ
  pub nullifier_count : ℕ
  pub min_fee_lamports : ℤ
  pub pool_denomination : ℤ

-- `LOW_BALANCE_THRESHOLD_WITHDRAWALS`
abbrev pub low_balance_threshold : ℕ
low_balance_threshold = 50

abbrev pub queue_backed_threshold : ℕ
queue_backed_threshold = 25

-- `none` is the client before `initializeClient`.
abbrev pub public_key_of : Option String → String
public_key_of none = "NOT_INITIALIZED"
public_key_of (some key) = key

-- The balance is asked for where there is a client; `answer` is what the node says.
abbrev pub hot_wallet_balance : Option String → Result String ℕ → Result String ℕ
hot_wallet_balance none answer = ok 0
hot_wallet_balance (some key) answer = answer

-- `minFee > 0n ? balance / minFee : 0`
abbrev pub budget : ℤ → ℕ → ℕ
budget (pos zero) balance = 0
budget (pos (suc fee)) balance = balance / suc fee
budget (negsuc n) balance = 0

abbrev pub issue_if : Bool → RelayerHealthIssue → List RelayerHealthIssue
issue_if true issue = issue ∷ []
issue_if false issue = []

abbrev pub is_uninitialized : Option String → Bool
is_uninitialized none = true
is_uninitialized (some key) = false

abbrev pub is_nil : List RelayerHealthIssue → Bool
is_nil [] = true
is_nil (x ∷ xs) = false

module _ {Proof : Type 0} (config : RelayerConfig) where
  abbrev pub issues_of : ℕ → RelayerState Proof → List RelayerHealthIssue
  issues_of balance state =
      issue_if (is_uninitialized config.client) client_uninitialized
      ++ issue_if (ltb (budget config.min_fee_lamports balance) low_balance_threshold) low_balance
      ++ issue_if (leb queue_backed_threshold (length state.in_flight)) queue_backed_up

  abbrev pub report_of : ℕ → RelayerState Proof → RelayerHealth
  report_of balance state = record {
    healthy = is_nil (issues_of balance state);
    issues = issues_of balance state;
    public_key = public_key_of config.client;
    balance_lamports = balance;
    withdrawals_budget = budget config.min_fee_lamports balance;
    pending_withdrawals = state.pending_withdrawals;
    in_flight_nullifiers = length state.in_flight;
    total_processed = state.total_processed;
    nullifier_count = length state.cache;
    min_fee_lamports = config.min_fee_lamports;
    pool_denomination = config.pool_denomination;
  }

  abbrev pub report : RelayerState Proof → Result String ℕ → Result String RelayerHealth
  report state (err error) = err error
  report state (ok balance) = ok (report_of balance state)

  unfoldable pub health : RelayerState Proof → Result String ℕ → Result String RelayerHealth
  health state answer = report state (hot_wallet_balance config.client answer)

  unfoldable pub status : RelayerState Proof → Result String ℕ → Result String RelayerStatus
  status state answer = elim (hot_wallet_balance config.client answer) [
    | err error ↦ err error
    | ok balance ↦ ok (record {
      public_key = public_key_of config.client;
      balance_lamports = balance;
      pending_withdrawals = state.pending_withdrawals;
      total_processed = state.total_processed;
      nullifier_count = length state.cache;
    })
  ]

-- The registry in memory: the signature under each nullifier.
unfoldable pub is_spent : String → List (String × String) → Bool
is_spent nullifier_hash spent = has_key nullifier_hash spent

-- No value where the nullifier is spent already.
unfoldable pub mark_spent :
    String → String → List (String × String) → Option (List (String × String))
mark_spent nullifier_hash signature spent =
    if has_key nullifier_hash spent then none else some (insert nullifier_hash signature spent)

-- The fee is positive and the balance pays it this often.
abbrev pub Pays : ℤ → ℕ → ℕ → Type 0
Pays (pos fee) times balance = (0 < fee) × (times * fee ≤ balance)
Pays (negsuc n) times balance = ⊥

budget-Pays :
    (fee : ℤ) (times balance : ℕ)
    → 0 < times
    → (leb times (budget fee balance) ≡ true) ↔ Pays fee times balance
budget-Pays (negsuc n) times balance h = ((λ e. absurd (ground (arith, e, h))), (λ p. absurd p))
budget-Pays (pos zero) times balance h =
    ((λ e. absurd (ground (arith, e, h))), (λ p. absurd (omega (arith, p.0))))
budget-Pays (pos (suc fee)) times balance h =
    let share = le-div_iff_mul-le {k = suc fee} {x = times} {y = balance} (omega arith) in
    (
      (λ e. (omega arith, share.0 (leb→le times (balance / suc fee) e))),
      (λ p. le→leb times (balance / suc fee) (share.1 p.1)),
    )

nil_iff :
    (a b c : Bool)
    → (is_nil
          (issue_if a client_uninitialized ++ issue_if b low_balance ++ issue_if c queue_backed_up)
        ≡ true)
      ↔ ((a ≡ false) × (b ≡ false) × (c ≡ false))
nil_iff a b c = ground arith

-- Where the client is initialised and the balance is known, the relayer is healthy just where its balance
-- pays the minimum fee, which is positive, 50 times, and fewer than 25 nullifiers are in flight.
pub health_iff :
    {Proof : Type 0} (config : RelayerConfig) (state : RelayerState Proof) (key : String)
    (balance : ℕ)
    → config.client ≡ some key
    → (h : RelayerHealth) × (health config state (ok balance) ≡ ok h)
      × ((h.healthy ≡ true)
          ↔ (Pays config.min_fee_lamports 50 balance × (length state.in_flight < 25)))
unfolding health
health_iff config state key balance e =
    let fee = config.min_fee_lamports in
    let pays = budget-Pays fee 50 balance (omega arith) in
    let nil =
      nil_iff (is_uninitialized config.client) (ltb (budget fee balance) 50)
        (leb 25 (length state.in_flight)) in
    (
      report_of config balance state,
      ap (λ c. report config state (hot_wallet_balance c (ok balance))) e,
      (
        (λ healthy.
            let parts = nil.0 healthy in
            (pays.0 (ground (arith, parts.1)), ground (arith, parts.2))),
        (λ p. nil.1 (ap is_uninitialized e, ground (arith, pays.1 p.0), ground (arith, p.1))),
      ),
    )
