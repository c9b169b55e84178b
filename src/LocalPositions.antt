-- ===== src/LocalPositions.antt =====
-- The browser's index of private positions, octora-web/src/lib/localPositions.ts. The state is
-- `localStorage`; the second part counts the change events that have been sent.
pub mod Changes
pub mod Entries
pub mod View
mod Tests
use octora.Base.{
  ℕ, suc, String, Bool, true, false, not, ◌||◌, Option, none, some, List, [], ◌∷◌, keep, map, ◌===◌,
  ◌&◌, if◌then◌else◌,
}
use octora.Base.Integers.{ℤ}
use octora.Base.Table.{lookup, insert}
use octora.Recovery.{or_else}
use octora.SingleSided.{DistributionShape}

pub data Network : Type 0 where
  mainnet devnet localnet : Network

pub data DerivationVersion : Type 0 where
  v1 v2 : DerivationVersion

-- The signatures of the transactions of a deposit.
pub record Signatures : Type 0 where
  pub mixer_deposit : Option String
  pub relayer_withdraw : Option String
  pub init : Option String
  pub fund : Option String

-- `USD` is the type of floats.
pub record StoredPosition (USD : Type 0) : Type 0 where
  pub position_id : String
  pub pool_address : String
  pub position_pubkey : String
  pub stealth_pubkey : String
  pub funded_lamports : String
  pub deposited_usd : USD
  pub lower_bin_id : ℤ
  pub upper_bin_id : ℤ
  pub shape : DistributionShape
  pub ts : ℕ
  pub network : Network
  pub closed : Bool
  pub closed_at : Option ℕ
  pub withdraw_signature : Option String
  pub withdraw_recipient : Option String
  pub signatures : Option Signatures
  pub derivation_version : Option DerivationVersion

pub record CloseMetadata : Type 0 where
  pub signature : Option String
  pub recipient : Option String
  pub ts : Option ℕ

pub record RebalanceMetadata : Type 0 where
  pub lower_bin_id : ℤ
  pub upper_bin_id : ℤ
  pub shape : DistributionShape
  pub position_pubkey : String
  pub fund_signature : Option String

-- What `JSON.parse` gives: an array, whose items are positions or not, or something else.
pub data Parsed (USD : Type 0) : Type 0 where
  array : List (Option (StoredPosition USD)) → Parsed USD
  other : Parsed USD

-- `JSON` over stored texts, the values of `Raw`; `none` is a throw, and an empty text is falsy.
pub record Json (USD Raw : Type 0) : Type 0 where
  pub stringify : List (StoredPosition USD) → Raw
  pub parse : Raw → Option (Parsed USD)
  pub is_empty : Raw → Bool

pub record Browser (Raw : Type 0) : Type 0 where
  pub local_storage : List (String × Raw)
  pub notified : ℕ

abbrev pub storage_key : String → String
storage_key wallet = "octora.positions.v1." & wallet

abbrev pub no_signatures : Signatures
no_signatures = record { mixer_deposit = none; relayer_withdraw = none; init = none; fund = none }

-- `patch.fundSignature ? { fund: patch.fundSignature } : {}`
abbrev pub funded : Option String → Signatures → Signatures
funded none s = s
funded (some signature) s = if signature === "" then s else record s { fund = some signature }

module _ {USD : Type 0} where
  abbrev pub present : List (Option (StoredPosition USD)) → List (StoredPosition USD)
  present [] = []
  present (none ∷ items) = present items
  present (some p ∷ items) = p ∷ present items

  abbrev pub parsed_positions : Option (Parsed USD) → List (StoredPosition USD)
  parsed_positions none = []
  parsed_positions (some other) = []
  parsed_positions (some (array items)) = present items

  abbrev pub close_one : String → CloseMetadata → ℕ → StoredPosition USD → StoredPosition USD
  close_one id meta now p = if not (p.position_id === id) || p.closed then p else record p {
    closed = true;
    closed_at = some (or_else meta.ts now);
    withdraw_signature = meta.signature;
    withdraw_recipient = meta.recipient;
  }

  abbrev pub rebalance_one : String → RebalanceMetadata → StoredPosition USD → StoredPosition USD
  rebalance_one id patch p = if not (p.position_id === id) then p else record p {
    lower_bin_id = patch.lower_bin_id;
    upper_bin_id = patch.upper_bin_id;
    shape = patch.shape;
    position_pubkey = patch.position_pubkey;
    signatures = some (funded patch.fund_signature (or_else p.signatures no_signatures));
  }

  -- Whether the map over the list changes an entry.
  abbrev pub some_entry : (StoredPosition USD → Bool) → List (StoredPosition USD) → Bool
  some_entry test [] = false
  some_entry test (p ∷ ps) = test p || some_entry test ps

  abbrev pub is_open_entry : String → StoredPosition USD → Bool
  is_open_entry id p = not (not (p.position_id === id) || p.closed)

  abbrev pub is_entry : String → StoredPosition USD → Bool
  is_entry id p = p.position_id === id

  module _ {Raw : Type 0} (json : Json USD Raw) where
    abbrev pub safe_parse : Option Raw → List (StoredPosition USD)
    safe_parse none = []
    safe_parse (some raw) = if json.is_empty raw then [] else parsed_positions (json.parse raw)

    -- `none` is the browser without a wallet.
    unfoldable pub list_local_positions : Option String → Browser Raw → List (StoredPosition USD)
    list_local_positions none b = []
    list_local_positions (some wallet) b =
        if wallet === "" then [] else safe_parse (lookup (storage_key wallet) b.local_storage)

    -- `setItem`, then `notifyChanged`.
    abbrev pub store : String → List (StoredPosition USD) → Browser Raw → Browser Raw
    store wallet positions b = record {
      local_storage = insert (storage_key wallet) (json.stringify positions) b.local_storage;
      notified = suc b.notified;
    }

    unfoldable pub add_local_position : String → StoredPosition USD → Browser Raw → Browser Raw
    add_local_position wallet position b =
        if wallet === ""
        then b
        else (let current = list_local_positions (some wallet) b in
            store wallet
              (position ∷ keep (λ p. not (p.position_id === position.position_id)) current) b)

    unfoldable pub mark_local_position_closed :
        String → String → CloseMetadata → ℕ → Browser Raw → Browser Raw
    mark_local_position_closed wallet id meta now b =
        if wallet === ""
        then b
        else (let current = list_local_positions (some wallet) b in
            if some_entry (is_open_entry id) current
            then store wallet (map (close_one id meta now) current) b
            else b)

    unfoldable pub mark_local_position_rebalanced :
        String → String → RebalanceMetadata → Browser Raw → Browser Raw
    mark_local_position_rebalanced wallet id patch b =
        if wallet === ""
        then b
        else (let current = list_local_positions (some wallet) b in
            if some_entry (is_entry id) current
            then store wallet (map (rebalance_one id patch) current) b
            else b)

    unfoldable pub remove_local_position : String → String → Browser Raw → Browser Raw
    remove_local_position wallet id b =
        if wallet === ""
        then b
        else (let current = list_local_positions (some wallet) b in
            store wallet (keep (λ p. not (p.position_id === id)) current) b)
