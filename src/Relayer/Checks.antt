-- ===== src/Relayer/Checks.antt =====
-- What a withdrawal is checked for before the relayer pays for it: `guardRequest`,
-- `checkPublicSignalsParity` and `checkPrivacyDelay` of
-- octora-api/src/modules/relayer/relayer.service.ts, `observe` of root-seen.repository.ts.
use octora.Base.{
  ℕ, ◌+◌, ◌-◌, ◌/◌, String, Bool, true, false, Option, none, some, List, [], ◌∷◌, length, ltb,
  if◌then◌else◌, ◌===◌, ◌==◌,
}
use octora.Base.Integers.{ℤ, less, same}
use octora.Base.Table.{lookup, insert}
use octora.Base.Effect.{Result, ok, err}
use octora.Recovery.{or_else}
use octora.Relayer.{
  WithdrawRequest, RelayerConfig, Crypto, ParityReason, wrong_count, root_mismatch,
  nullifier_mismatch, fee_mismatch, recipient_mismatch, relayer_mismatch, parse_error, Failure,
  foreign_relayer, invalid_fee, fee_below_minimum, WithdrawResult,
}

-- `Math.ceil(privacyDelayMs / SLOT_DURATION_MS)`
unfoldable pub privacy_delay_slots : RelayerConfig → ℕ
privacy_delay_slots config = (or_else config.privacy_delay_ms 13000 + 399) / 400

abbrev pub has_key {ℓ} : {V : Type ℓ} → String → List (String × V) → Bool
has_key k m = elim (lookup k m) [ none ↦ false | some v ↦ true ]

-- `observe`: the row that is there, or a new one with this slot.
abbrev pub observe : String → ℕ → List (String × ℕ) → ℕ × List (String × ℕ)
observe root slot roots = elim (lookup root roots) [
  | some first ↦ (first, roots)
  | none ↦ (slot, insert root slot roots)
]

-- The slots that have passed and those that are missing, where the gate is shut.
abbrev gate_at : ℕ → ℕ → ℕ → Option (ℕ × ℕ)
gate_at threshold slot first =
    if ltb (slot - first) threshold then some (slot - first, threshold - (slot - first)) else none

abbrev observed : ℕ → ℕ → ℕ × List (String × ℕ) → Option (ℕ × ℕ) × List (String × ℕ)
observed threshold slot (first, roots) = (gate_at threshold slot first, roots)

abbrev at_slot :
    ℕ
    → String
    → List (String × ℕ)
    → Result String (Option ℕ)
    → Result String (Option (ℕ × ℕ)) × List (String × ℕ)
at_slot threshold root roots (err e) = (err e, roots)
at_slot threshold root roots (ok none) = (ok none, roots)
at_slot threshold root roots (ok (some slot)) =
    let (gate, later) = observed threshold slot (observe root slot roots) in (ok gate, later)

-- The slot is asked for only where the gate is in use.
unfoldable pub check_privacy_delay :
    RelayerConfig
    → Result String (Option ℕ)
    → String
    → List (String × ℕ)
    → Result String (Option (ℕ × ℕ)) × List (String × ℕ)
check_privacy_delay config answer root roots =
    if privacy_delay_slots config == 0
    then (ok none, roots)
    else (if config.has_root_seen_repo
        then at_slot (privacy_delay_slots config) root roots answer
        else (ok none, roots))

-- One comparison of the request with the signals; a text that does not parse throws.
abbrev pub agree : Option ℤ → ℤ → ParityReason → Option ParityReason → Option ParityReason
agree none signal reason rest = some parse_error
agree (some value) signal reason rest = if same value signal then rest else some reason

abbrev pub check_keys : Option ℤ → Option ℤ → ℤ → ℤ → Option ParityReason
check_keys (some recipient) (some relayer) sig_recipient sig_relayer =
    agree (some recipient) sig_recipient recipient_mismatch
      (agree (some relayer) sig_relayer relayer_mismatch none)
check_keys _ _ sig_recipient sig_relayer = some parse_error

module _ {Proof : Type 0} (crypto : Crypto Proof) where
  open crypto use {big_int, to_text, field_hash, verify}

  abbrev pub check_signals :
      WithdrawRequest Proof
      → Option ℤ
      → Option ℤ
      → Option ℤ
      → Option ℤ
      → Option ℤ
      → Option ParityReason
  check_signals request (some root) (some nullifier) (some recipient) (some relayer) (some fee) =
      agree (big_int request.root) root root_mismatch (
        agree (big_int request.nullifier_hash) nullifier nullifier_mismatch (
          agree (big_int request.fee) fee fee_mismatch (
            check_keys (field_hash request.recipient) (field_hash request.relayer) recipient
              relayer)))
  check_signals request _ _ _ _ _ = some parse_error

  abbrev pub check_list : WithdrawRequest Proof → List String → Option ParityReason
  check_list request (a ∷ b ∷ c ∷ d ∷ e ∷ []) =
      check_signals request (big_int a) (big_int b) (big_int c) (big_int d) (big_int e)
  check_list request signals = some (wrong_count (length signals))

  -- No reason where the request matches what the proof binds.
  unfoldable pub check_public_signals_parity : WithdrawRequest Proof → Option ParityReason
  check_public_signals_parity request = check_list request request.public_signals

  unfoldable pub failure : WithdrawRequest Proof → Failure → WithdrawResult
  failure request error = record {
    success = false;
    tx_signature = none;
    nullifier_hash = request.nullifier_hash;
    recipient = request.recipient;
    amount_lamports = "0";
    fee_lamports = request.fee;
    error = some error;
  }

  abbrev pub fee_failure : ℤ → Option ℤ → Option Failure
  fee_failure minimum none = some invalid_fee
  fee_failure minimum (some fee) = if less fee minimum then some fee_below_minimum else none

  abbrev pub is_ours : Option String → String → Bool
  is_ours none relayer = true
  is_ours (some ours) relayer = relayer === ours

  unfoldable pub guard_request : RelayerConfig → WithdrawRequest Proof → Option Failure
  guard_request config request =
      if is_ours config.client request.relayer
      then fee_failure config.min_fee_lamports (big_int request.fee)
      else some foreign_relayer
