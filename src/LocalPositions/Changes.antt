-- ===== src/LocalPositions/Changes.antt =====
-- What each operation of octora-web/src/lib/localPositions.ts is to make of the entry of a wallet under an
-- id, and what the code relies on of `JSON`.
use octora.Base.{
  ℕ, String, ◌≡◌, true, false, not, ◌&&◌, Option, none, some, List, [], ◌∷◌, map, ◌===◌,
  if◌then◌else◌,
}
use octora.LocalPositions.{
  StoredPosition, CloseMetadata, RebalanceMetadata, Json, array, Signatures,
}

pub data Change (USD : Type 0) : Type 0 where
  adds : (wallet : String) → StoredPosition USD → Change USD
  closes : (wallet id : String) → CloseMetadata → (now : ℕ) → Change USD
  rebalances : (wallet id : String) → RebalanceMetadata → Change USD
  removes : (wallet id : String) → Change USD

-- The first text, where it is given and not empty, or the second.
abbrev pub filled : Option String → Option String → Option String
filled none earlier = earlier
filled (some text) earlier = if text === "" then earlier else some text

-- The signatures after a rebalance: the fund's is replaced where the patch has one.
abbrev pub signatures_as : Option String → Option Signatures → Signatures
signatures_as fund none = record {
  mixer_deposit = none;
  relayer_withdraw = none;
  init = none;
  fund = filled fund none;
}
signatures_as fund (some s) = record {
  mixer_deposit = s.mixer_deposit;
  relayer_withdraw = s.relayer_withdraw;
  init = s.init;
  fund = filled fund s.fund;
}

abbrev pub time_as : Option ℕ → ℕ → ℕ
time_as none now = now
time_as (some ts) now = ts

module _ {USD : Type 0} where
  -- The entry under an id.
  abbrev pub find : String → List (StoredPosition USD) → Option (StoredPosition USD)
  find id [] = none
  find id (p ∷ ps) = if p.position_id === id then some p else find id ps

  abbrev pub map_option :
      (StoredPosition USD → StoredPosition USD)
      → Option (StoredPosition USD)
      → Option (StoredPosition USD)
  map_option f none = none
  map_option f (some p) = some (f p)

  -- A closed entry stays as it is; an open one is closed, with the signature and the recipient of the
  -- withdrawal and the time that is given, or else now.
  abbrev pub closed_as : CloseMetadata → ℕ → StoredPosition USD → StoredPosition USD
  closed_as meta now p = if p.closed then p else record {
    position_id = p.position_id;
    pool_address = p.pool_address;
    position_pubkey = p.position_pubkey;
    stealth_pubkey = p.stealth_pubkey;
    funded_lamports = p.funded_lamports;
    deposited_usd = p.deposited_usd;
    lower_bin_id = p.lower_bin_id;
    upper_bin_id = p.upper_bin_id;
    shape = p.shape;
    ts = p.ts;
    network = p.network;
    closed = true;
    closed_at = some (time_as meta.ts now);
    withdraw_signature = meta.signature;
    withdraw_recipient = meta.recipient;
    signatures = p.signatures;
    derivation_version = p.derivation_version;
  }

  -- A rebalance replaces the range, the shape, the account and the fund's signature.
  abbrev pub rebalanced_as : RebalanceMetadata → StoredPosition USD → StoredPosition USD
  rebalanced_as patch p = record {
    position_id = p.position_id;
    pool_address = p.pool_address;
    position_pubkey = patch.position_pubkey;
    stealth_pubkey = p.stealth_pubkey;
    funded_lamports = p.funded_lamports;
    deposited_usd = p.deposited_usd;
    lower_bin_id = patch.lower_bin_id;
    upper_bin_id = patch.upper_bin_id;
    shape = patch.shape;
    ts = p.ts;
    network = p.network;
    closed = p.closed;
    closed_at = p.closed_at;
    withdraw_signature = p.withdraw_signature;
    withdraw_recipient = p.withdraw_recipient;
    signatures = some (signatures_as patch.fund_signature p.signatures);
    derivation_version = p.derivation_version;
  }

  -- What a change makes of the entry of this wallet under this id.
  unfoldable pub changed :
      Change USD → String → String → Option (StoredPosition USD) → Option (StoredPosition USD)
  changed (adds w p) wallet id entry =
      if not (w === "") && (w === wallet) && (p.position_id === id) then some p else entry
  changed (closes w i meta now) wallet id entry =
      if not (w === "") && (w === wallet) && (i === id)
      then map_option (closed_as meta now) entry
      else entry
  changed (rebalances w i patch) wallet id entry =
      if not (w === "") && (w === wallet) && (i === id)
      then map_option (rebalanced_as patch) entry
      else entry
  changed (removes w i) wallet id entry =
      if not (w === "") && (w === wallet) && (i === id) then none else entry

  -- What `JSON` documents: a text that it wrote is not empty and reads back as what was written.
  pub record IsJson {Raw : Type 0} (json : Json USD Raw) : Type 0 where
    pub nonempty : (ps : List (StoredPosition USD)) → json.is_empty (json.stringify ps) ≡ false
    pub reads_back :
        (ps : List (StoredPosition USD))
        → json.parse (json.stringify ps) ≡ some (array (map some ps))
