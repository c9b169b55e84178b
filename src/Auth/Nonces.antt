-- ===== src/Auth/Nonces.antt =====
-- `issueAuthNonce` and `requireWalletSignature` of octora-api/src/common/auth.ts, over the table.
use octora.Base.{
  ℕ, ◌+◌, ◌-◌, String, Bool, true, false, not, ◌&&◌, none, some, [], ◌∷◌, length, ltb, suc,
  if◌then◌else◌, ◌===◌, ◌==◌,
}
use octora.Base.Table.{lookup}
use octora.Base.Effect.{ok, err, Effect, pure, or_throw, guard, ◌>>=◌, ◌>>◌}
use octora.Auth.{
  AuthNonce, AuthNonces, Request, AuthenticatedWallet, Keys, AuthFailure, missing_headers,
  invalid_wallet, invalid_base64, wrong_length, not_claimed, failed_verification, junk_wallet,
  duplicate_nonce, nonce_ttl_ms, given, pick_header, verify_ed25519_detached,
}

-- The nonce is the table's key: a second row under it is refused.
unfoldable pub create_nonce : String → AuthNonce → Effect AuthNonces AuthFailure (Unit {0})
create_nonce nonce row rows = elim (lookup nonce rows) [
  | none ↦ (ok tt, (nonce, row) ∷ rows)
  | some there ↦ (err duplicate_nonce, rows)
]

-- `deleteMany({ where: { expiresAt: { lt } } })`
unfoldable pub delete_expired : ℕ → AuthNonces → AuthNonces
delete_expired before [] = []
delete_expired before ((nonce, row) ∷ rows) =
    let rest = delete_expired before rows in
    if ltb row.expires_at before then rest else (nonce, row) ∷ rest

-- The collection may fail, which is ignored.
abbrev pub collect_expired : Bool → ℕ → Effect AuthNonces AuthFailure (Unit {0})
collect_expired collects now rows =
    (ok tt, (if collects then delete_expired (now - nonce_ttl_ms) rows else rows))

abbrev pub is_claimable : ℕ → String → String → String → AuthNonce → Bool
is_claimable now nonce wallet at row =
    (at === nonce) && (row.wallet_address === wallet) && not row.used && ltb now row.expires_at

-- `updateMany({ where, data: { used: true } })`, with the number of the rows.
unfoldable pub claim_rows : ℕ → String → String → AuthNonces → ℕ × AuthNonces
claim_rows now nonce wallet [] = (0, [])
claim_rows now nonce wallet ((at, row) ∷ rows) =
    let (n, rest) = claim_rows now nonce wallet rows in
    if is_claimable now nonce wallet at row
    then (suc n, (at, record row { used = true }) ∷ rest)
    else (n, (at, row) ∷ rest)

abbrev pub claim : ℕ → String → String → Effect AuthNonces AuthFailure ℕ
claim now nonce wallet rows = let (n, rest) = claim_rows now nonce wallet rows in (ok n, rest)

module _ (keys : Keys) where
  open keys use {decode_key, encode_key, from_base64, from_utf8}

  -- `nonce` is what the random bytes give; the reply is the date at which it expires.
  unfoldable pub issue_auth_nonce :
      (collects : Bool) (now : ℕ) (nonce wallet_address : String)
      → Effect AuthNonces AuthFailure (String × ℕ)
  unfolding ◌>>=◌
  issue_auth_nonce collects now nonce wallet_address = do
    or_throw (decode_key wallet_address) junk_wallet
    create_nonce nonce
        (record { wallet_address = wallet_address; expires_at = now + nonce_ttl_ms; used = false })
    collect_expired collects now
    pure (nonce, now + nonce_ttl_ms)

  unfoldable pub require_wallet_signature :
      ℕ → Request → Effect AuthNonces AuthFailure AuthenticatedWallet
  unfolding ◌>>=◌
  require_wallet_signature now req = do
    wallet ← or_throw (given (pick_header keys req "x-wallet-address")) missing_headers
    nonce ← or_throw (given (pick_header keys req "x-signed-nonce")) missing_headers
    signature ← or_throw (given (pick_header keys req "x-signature")) missing_headers
    pubkey ← or_throw (decode_key wallet) invalid_wallet
    bytes ← or_throw (from_base64 signature) invalid_base64
    guard (length bytes == 64) (wrong_length (length bytes))
    claimed ← claim now nonce wallet
    guard (claimed == 1) not_claimed
    guard (verify_ed25519_detached keys (from_utf8 nonce) bytes pubkey) failed_verification
    pure (record { address = encode_key pubkey; pubkey = pubkey })
