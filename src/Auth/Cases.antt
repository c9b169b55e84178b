-- ===== src/Auth/Cases.antt =====
-- How `requireWalletSignature` of octora-api/src/common/auth.ts ends: a throw that has touched nothing, or
-- the claim of the nonce and what follows it.
use octora.Base.{
  ◌∙◌, refl, arith, inl, inr, Bool-cases, ℕ, String, ◌≡◌, refl, ◌⊎◌, inl, inr, Bool, true, false,
  some, List, arith, length, if◌then◌else◌, ◌==◌, Bool-cases, Option-cases,
}
use octora.Base.Effect.{Result, ok, err, ◌>>=◌}
use octora.Auth.{
  AuthNonces, Request, AuthenticatedWallet, Keys, AuthFailure, missing_headers, invalid_wallet,
  invalid_base64, wrong_length, not_claimed, failed_verification, given, pick_header,
  verify_ed25519_detached,
}
use octora.Auth.Nonces.{claim_rows, require_wallet_signature}

abbrev pub is_ok : {E A : Type 0} → Result E A → Bool
is_ok (ok a) = true
is_ok (err e) = false

module _ (keys : Keys) where
  open keys use {decode_key, encode_key, from_base64, from_utf8}

  -- The headers of a request that reaches the table.
  pub record Readable (req : Request) : Type 0 where
    pub wallet : String
    pub shown : String
    pub signature : String
    pub pubkey : List ℕ
    pub bytes : List ℕ
    pub wallet_given : given (pick_header keys req "x-wallet-address") ≡ some wallet
    pub nonce_given : given (pick_header keys req "x-signed-nonce") ≡ some shown
    pub signature_given : given (pick_header keys req "x-signature") ≡ some signature
    pub is_key : decode_key wallet ≡ some pubkey
    pub is_base64 : from_base64 signature ≡ some bytes
    pub is_long : (length bytes == 64) ≡ true

  -- What the claim of the nonce leads to.
  abbrev pub judged :
      {req : Request}
      → Readable req
      → ℕ × AuthNonces
      → Result AuthFailure AuthenticatedWallet × AuthNonces
  judged r (n, rows) =
      if n == 1
      then (if verify_ed25519_detached keys (from_utf8 r.shown) r.bytes r.pubkey
          then (ok (record { address = encode_key r.pubkey; pubkey = r.pubkey }), rows)
          else (err failed_verification, rows))
      else (err not_claimed, rows)

  pub require_wallet_signature-cases :
      (now : ℕ) (req : Request) (rows : AuthNonces)
      → ((f : AuthFailure) × (require_wallet_signature keys now req rows ≡ (err f, rows)))
        ⊎ ((r : Readable req) × (require_wallet_signature keys now req rows
              ≡ judged r (claim_rows now r.shown r.wallet rows)))
  unfolding require_wallet_signature ◌>>=◌
  require_wallet_signature-cases now req rows =
      elim (Option-cases (given (pick_header keys req "x-wallet-address"))) [
        | inl e ↦ inl (missing_headers, rw e refl)
        | inr (wallet, e) ↦ elim (Option-cases (given (pick_header keys req "x-signed-nonce"))) [
          | inl f ↦ inl (missing_headers, rw (e, f) refl)
          | inr (shown, f) ↦ elim (Option-cases (given (pick_header keys req "x-signature"))) [
            | inl g ↦ inl (missing_headers, rw (e, f, g) refl)
            | inr (signature, g) ↦ elim (Option-cases (decode_key wallet)) [
              | inl h ↦ inl (invalid_wallet, rw (e, f, g, h) refl)
              | inr (pubkey, h) ↦ elim (Option-cases (from_base64 signature)) [
                | inl i ↦ inl (invalid_base64, rw (e, f, g, h, i) refl)
                | inr (bytes, i) ↦ elim (Bool-cases (length bytes == 64)) [
                  | inr j ↦ inl (wrong_length (length bytes), rw (e, f, g, h, i, j) refl)
                  | inl j ↦ inr (
                    record {
                      wallet = wallet;
                      shown = shown;
                      signature = signature;
                      pubkey = pubkey;
                      bytes = bytes;
                      wallet_given = e;
                      nonce_given = f;
                      signature_given = g;
                      is_key = h;
                      is_base64 = i;
                      is_long = j;
                    },
                    rw (e, f, g, h, i, j) (ground arith),
                  )
                ]
              ]
            ]
          ]
        ]
      ]

  abbrev pub wallet_of : {req : Request} → Readable req → AuthenticatedWallet
  wallet_of r = record { address = encode_key r.pubkey; pubkey = r.pubkey }

  judged-cases :
      (req : Request) (r : Readable req) (n : ℕ) (rows : AuthNonces)
      → ((f : AuthFailure) × (judged r (n, rows) ≡ (err f, rows)))
        ⊎ ((n ≡ 1)
            × (verify_ed25519_detached keys (from_utf8 r.shown) r.bytes r.pubkey ≡ true)
            × (judged r (n, rows) ≡ (ok (wallet_of r), rows)))
  judged-cases req r n rows =
      elim (Bool-cases (verify_ed25519_detached keys (from_utf8 r.shown) r.bytes r.pubkey)) [
        | inl v ↦ elim (Bool-cases (n == 1)) [
          | inl e ↦ inr (ground (arith, e), v, rw (e, v) refl)
          | inr e ↦ inl (not_claimed, rw e refl)
        ]
        | inr v ↦ elim (Bool-cases (n == 1)) [
          | inl e ↦ inl (failed_verification, rw (e, v) refl)
          | inr e ↦ inl (not_claimed, rw e refl)
        ]
      ]

  -- The hook ends in a failure, or in the one row claimed and a signature that verifies.
  pub require_wallet_signature-ends :
      (now : ℕ) (req : Request) (rows : AuthNonces)
      → ((f : AuthFailure) × (later : AuthNonces) × (require_wallet_signature keys now req rows
            ≡ (err f, later)))
        ⊎ ((r : Readable req) × ((claim_rows now r.shown r.wallet rows).0 ≡ 1)
            × (verify_ed25519_detached keys (from_utf8 r.shown) r.bytes r.pubkey ≡ true)
            × (require_wallet_signature keys now req rows
                ≡ (ok (wallet_of r), (claim_rows now r.shown r.wallet rows).1)))
  require_wallet_signature-ends now req rows = elim (require_wallet_signature-cases now req rows) [
    | inl (f, e) ↦ inl (f, rows, e)
    | inr (r, e) ↦
        elim (judged-cases req r (claim_rows now r.shown r.wallet rows).0
          (claim_rows now r.shown r.wallet rows).1) [
            | inl (f, g) ↦ inl (f, (claim_rows now r.shown r.wallet rows).1, e ∙ g)
            | inr (n, v, g) ↦ inr (r, n, v, e ∙ g)
          ]
  ]
