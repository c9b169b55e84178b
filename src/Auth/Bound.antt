-- ===== src/Auth/Bound.antt =====
-- Whom a nonce of octora-api/src/common/auth.ts lets through, and when.
use octora.Base.{
  ℕ, ◌+◌, ◌-◌, ◌<◌, String, ◌≡◌, refl, ◌⊎◌, inl, inr, Bool, true, false, List, [], ◌∷◌, arith, ltb,
  eq_iff, Bool-cases, Option-cases, subst, All,
}
use octora.Base.Table.{lookup}
use octora.Base.Effect.{◌>>=◌}
use octora.Auth.{AuthNonce, AuthNonces, Request, Keys, nonce_ttl_ms, verify_ed25519_detached}
use octora.Auth.Nonces.{
  create_nonce, delete_expired, collect_expired, is_claimable, claim_rows, issue_auth_nonce,
  require_wallet_signature,
}
use octora.Auth.Cases.{
  is_ok, Readable, judged, require_wallet_signature-cases, require_wallet_signature-ends,
}
use octora.Auth.Once.{AuthCall, issue, present, after}

-- What holds of every row's nonce, wallet and date.
abbrev AllRows : (String → String → ℕ → Type 0) → AuthNonces → Type 0
AllRows P rows =
    All (λ (entry : String × AuthNonce). P entry.0 entry.1.wallet_address entry.1.expires_at) rows

module _ (P : String → String → ℕ → Type 0) where
  AllRows-delete_expired :
      (before : ℕ) (rows : AuthNonces) → AllRows P rows → AllRows P (delete_expired before rows)
  unfolding delete_expired
  AllRows-delete_expired before [] h = tt
  AllRows-delete_expired before ((at, row) ∷ rows) h =
      elim (Bool-cases (ltb row.expires_at before)) [
        | inl e ↦ rw e (AllRows-delete_expired before rows h.1)
        | inr e ↦ rw e (h.0, AllRows-delete_expired before rows h.1)
      ]

  AllRows-claim_rows :
      (now : ℕ) (nonce wallet : String) (rows : AuthNonces)
      → AllRows P rows
      → AllRows P (claim_rows now nonce wallet rows).1
  unfolding claim_rows
  AllRows-claim_rows now nonce wallet [] h = tt
  AllRows-claim_rows now nonce wallet ((at, row) ∷ rows) h =
      elim (Bool-cases (is_claimable now nonce wallet at row)) [
        | inl e ↦ rw e (h.0, AllRows-claim_rows now nonce wallet rows h.1)
        | inr e ↦ rw e (h.0, AllRows-claim_rows now nonce wallet rows h.1)
      ]

  claimable_parts :
      (now : ℕ) (nonce wallet at : String) (row : AuthNonce)
      → is_claimable now nonce wallet at row ≡ true
      → (at ≡ nonce) × (row.wallet_address ≡ wallet) × (now < row.expires_at)
  claimable_parts now nonce wallet at row c =
      ground (arith, c, eq_iff at nonce, eq_iff row.wallet_address wallet)

  -- A claim that counts a row has found one under the nonce, of the wallet, that is still good.
  claim_rows-found :
      (now : ℕ) (nonce wallet : String) (rows : AuthNonces)
      → AllRows P rows
      → (claim_rows now nonce wallet rows).0 ≡ 1
      → (expires : ℕ) × P nonce wallet expires × (now < expires)
  unfolding claim_rows
  claim_rows-found now nonce wallet [] h e = absurd (omega (arith, e))
  claim_rows-found now nonce wallet ((at, row) ∷ rows) h e =
      elim (Bool-cases (is_claimable now nonce wallet at row)) [
        | inl c ↦
            let (a, b, l) = claimable_parts now nonce wallet at row c in
            (
              row.expires_at,
              subst (λ x. P x wallet row.expires_at) a (subst (λ x. P at x row.expires_at) b h.0),
              l,
            )
        | inr c ↦ claim_rows-found now nonce wallet rows h.1 (ground (arith, c, e))
      ]

-- Whether the calls of the past, the latest first, issued this nonce to this wallet, with this date.
abbrev pub WasIssued : List AuthCall → String → String → ℕ → Type 0
WasIssued [] nonce wallet expires = ⊥
WasIssued (issue collects now at owner ∷ past) nonce wallet expires =
    ((at ≡ nonce) × (owner ≡ wallet) × (expires ≡ now + nonce_ttl_ms))
    ⊎ WasIssued past nonce wallet expires
WasIssued (present now req ∷ past) nonce wallet expires = WasIssued past nonce wallet expires

abbrev issued_row : ℕ → String → AuthNonce
issued_row now wallet = record {
  wallet_address = wallet;
  expires_at = now + nonce_ttl_ms;
  used = false;
}

module _ (keys : Keys) where
  open keys use {decode_key, from_utf8}

  -- The tables that calls lead to from the empty one.
  pub data Reach : List AuthCall → AuthNonces → Type 0 where
    start : Reach [] []
    more :
        {past : List AuthCall} {rows : AuthNonces} (c : AuthCall)
        → Reach past rows
        → Reach (c ∷ past) (after keys c rows)

  AllRows-weaken :
      (P Q : String → String → ℕ → Type 0) (rows : AuthNonces)
      → ((n w : String) (e : ℕ) → P n w e → Q n w e)
      → AllRows P rows
      → AllRows Q rows
  AllRows-weaken P Q [] f h = tt
  AllRows-weaken P Q ((at, row) ∷ rows) f h =
      (f at row.wallet_address row.expires_at h.0, AllRows-weaken P Q rows f h.1)

  AllRows-collect_expired :
      (P : String → String → ℕ → Type 0) (collects : Bool) (now : ℕ) (rows : AuthNonces)
      → AllRows P rows
      → AllRows P (collect_expired collects now rows).1
  AllRows-collect_expired P true now rows h = AllRows-delete_expired P (now - nonce_ttl_ms) rows h
  AllRows-collect_expired P false now rows h = h

  judged-rows :
      (req : Request) (r : Readable keys req) (n : ℕ) (rows : AuthNonces)
      → (judged keys r (n, rows)).1 ≡ rows
  judged-rows req r n rows = ground arith

  AllRows-present :
      (P : String → String → ℕ → Type 0) (now : ℕ) (req : Request) (rows : AuthNonces)
      → AllRows P rows
      → AllRows P (require_wallet_signature keys now req rows).1
  AllRows-present P now req rows h = elim (require_wallet_signature-cases keys now req rows) [
    | inl (f, e) ↦ rw e h
    | inr (r, e) ↦
        rw
          (
            e,
            judged-rows req r (claim_rows now r.shown r.wallet rows).0
                (claim_rows now r.shown r.wallet rows).1,
          )
          (AllRows-claim_rows P now r.shown r.wallet rows h)
  ]

  issue-rows :
      (collects : Bool) (now : ℕ) (at wallet : String) (rows : AuthNonces)
      → ((issue_auth_nonce keys collects now at wallet rows).1 ≡ rows)
        ⊎ ((issue_auth_nonce keys collects now at wallet rows).1
            ≡ (collect_expired collects now ((at, issued_row now wallet) ∷ rows)).1)
  unfolding issue_auth_nonce ◌>>=◌ create_nonce
  issue-rows collects now at wallet rows = elim (Option-cases (decode_key wallet)) [
    | inl e ↦ inl (rw e refl)
    | inr (key, e) ↦ elim (Option-cases (lookup at rows)) [
      | inr (row, f) ↦ inl (rw e (ground (arith, f)))
      | inl f ↦ inr (rw e (ground (arith, f)))
    ]
  ]

  AllRows-issue :
      (P : String → String → ℕ → Type 0) (collects : Bool) (now : ℕ) (at wallet : String)
      (rows : AuthNonces)
      → P at wallet (now + nonce_ttl_ms)
      → AllRows P rows
      → AllRows P (issue_auth_nonce keys collects now at wallet rows).1
  AllRows-issue P collects now at wallet rows p h = elim (issue-rows collects now at wallet rows) [
    | inl e ↦ rw e h
    | inr e ↦
        rw e (AllRows-collect_expired P collects now ((at, issued_row now wallet) ∷ rows) (p, h))
  ]

  Reach-WasIssued :
      (past : List AuthCall) (rows : AuthNonces) → Reach past rows → AllRows (WasIssued past) rows
  Reach-WasIssued _ _ start = tt
  Reach-WasIssued _ _ (more {past} {rows} (issue collects now at owner) reach) =
      AllRows-issue (WasIssued (issue collects now at owner ∷ past)) collects now at owner rows
        (inl (refl, refl, refl))
        (AllRows-weaken (WasIssued past) (WasIssued (issue collects now at owner ∷ past)) rows
          (λ n w e h. inr h) (Reach-WasIssued past rows reach))
  Reach-WasIssued _ _ (more {past} {rows} (present now req) reach) =
      AllRows-present (WasIssued past) now req rows (Reach-WasIssued past rows reach)

  -- In a table that calls lead to from the empty one, a request is let through only where its nonce
  -- was issued to the wallet that it names, has not passed the date of that issue, and its
  -- signature of the nonce verifies under the wallet's key.
  pub require_wallet_signature-issued :
      (past : List AuthCall) (rows : AuthNonces) (now : ℕ) (req : Request)
      → Reach past rows
      → is_ok (require_wallet_signature keys now req rows).0 ≡ true
      → (r : Readable keys req) × (expires : ℕ) × WasIssued past r.shown r.wallet expires
        × (now < expires)
        × (verify_ed25519_detached keys (from_utf8 r.shown) r.bytes r.pubkey ≡ true)
  require_wallet_signature-issued past rows now req reach passed =
      elim (require_wallet_signature-ends keys now req rows) [
        | inl (f, later, e) ↦ absurd (ground (arith, e, passed))
        | inr (r, claimed, good, e) ↦
            let (expires, was, l) =
              claim_rows-found (WasIssued past) now r.shown r.wallet rows
                (Reach-WasIssued past rows reach) claimed in
            (r, expires, was, l, good)
      ]
