-- ===== src/Auth/Once.antt =====
-- How often a nonce of octora-api/src/common/auth.ts lets a request through.
use octora.Base.{
  ℕ, suc, ◌+◌, ◌-◌, ◌≤◌, String, inl, inr, Bool, true, false, not, ◌&&◌, Option, none, some, List,
  [], ◌∷◌, arith, if◌then◌else◌, ◌===◌, eq_iff, Option-cases,
}
use octora.Base.Table.{lookup}
use octora.Base.Effect.{◌>>=◌}
use octora.Auth.{AuthNonces, Request, Keys, nonce_ttl_ms, given, pick_header}
use octora.Auth.Cases.{is_ok, Readable, judged, require_wallet_signature-cases}
use octora.Auth.Nonces.{
  create_nonce, delete_expired, collect_expired, claim_rows, issue_auth_nonce,
  require_wallet_signature,
}

-- The calls that touch the table, in the order in which the database takes them.
pub data AuthCall : Type 0 where
  issue : (collects : Bool) (now : ℕ) (nonce wallet : String) → AuthCall
  present : (now : ℕ) (req : Request) → AuthCall

-- The unused rows under a nonce.
unfoldable pub count_unused : String → AuthNonces → ℕ
count_unused nonce [] = 0
count_unused nonce ((at, row) ∷ rows) =
    let n = count_unused nonce rows in if (at === nonce) && not row.used then suc n else n

abbrev pub one_if : Bool → ℕ
one_if true = 1
one_if false = 0

delete_expired-unused :
    (before : ℕ) (nonce : String) (rows : AuthNonces)
    → count_unused nonce (delete_expired before rows) ≤ count_unused nonce rows
unfolding delete_expired count_unused
delete_expired-unused before nonce [] = omega arith
delete_expired-unused before nonce ((at, row) ∷ rows) =
    ground (arith, delete_expired-unused before nonce rows)

claim_rows-unused :
    (now : ℕ) (nonce wallet other : String) (rows : AuthNonces)
    → count_unused other (claim_rows now nonce wallet rows).1
        + (if nonce === other then (claim_rows now nonce wallet rows).0 else 0)
      ≤ count_unused other rows
unfolding claim_rows count_unused
claim_rows-unused now nonce wallet other [] = ground arith
claim_rows-unused now nonce wallet other ((at, row) ∷ rows) = ground (
  arith,
  claim_rows-unused now nonce wallet other rows,
  eq_iff at nonce,
  eq_iff nonce other,
  eq_iff at other,
)

abbrev pub is_text : String → Option String → Bool
is_text nonce none = false
is_text nonce (some shown) = shown === nonce

abbrev pub count_issues : String → List AuthCall → ℕ
count_issues nonce [] = 0
count_issues nonce (issue collects now at wallet ∷ calls) =
    one_if (at === nonce) + count_issues nonce calls
count_issues nonce (present now req ∷ calls) = count_issues nonce calls

module _ (keys : Keys) where
  open keys use {decode_key, encode_key, from_base64, from_utf8}

  -- Whether the nonce that a request shows is this one.
  abbrev pub shows : String → Request → Bool
  shows nonce req = is_text nonce (given (pick_header keys req "x-signed-nonce"))

  -- The state after a call; a call that throws keeps what was written.
  abbrev pub after : AuthCall → AuthNonces → AuthNonces
  after (issue collects now nonce wallet) rows =
      (issue_auth_nonce keys collects now nonce wallet rows).1
  after (present now req) rows = (require_wallet_signature keys now req rows).1

  abbrev pub run : List AuthCall → AuthNonces → AuthNonces
  run [] rows = rows
  run (c ∷ calls) rows = run calls (after c rows)

  -- Whether the call lets a request with this nonce through.
  abbrev pub lets_through : String → AuthCall → AuthNonces → Bool
  lets_through nonce (issue collects now at wallet) rows = false
  lets_through nonce (present now req) rows =
      is_ok (require_wallet_signature keys now req rows).0 && shows nonce req

  abbrev pub count_through : String → List AuthCall → AuthNonces → ℕ
  count_through nonce [] rows = 0
  count_through nonce (c ∷ calls) rows =
      one_if (lets_through nonce c rows) + count_through nonce calls (after c rows)

  judged-unused :
      (nonce : String) (req : Request) (r : Readable keys req) (n : ℕ) (rows : AuthNonces)
      → count_unused nonce (judged keys r (n, rows)).1
          + one_if (is_ok (judged keys r (n, rows)).0 && (r.shown === nonce))
        ≤ count_unused nonce rows + (if r.shown === nonce then n else 0)
  judged-unused nonce req r n rows = ground arith

  present-unused :
      (now : ℕ) (nonce : String) (req : Request) (rows : AuthNonces)
      → count_unused nonce (require_wallet_signature keys now req rows).1
          + one_if (is_ok (require_wallet_signature keys now req rows).0 && shows nonce req)
        ≤ count_unused nonce rows
  present-unused now nonce req rows = elim (require_wallet_signature-cases keys now req rows) [
    | inl (f, e) ↦ rw e (omega arith)
    | inr (r, e) ↦
        rw (e, r.nonce_given)
          (omega (
            arith,
            judged-unused nonce req r (claim_rows now r.shown r.wallet rows).0
                (claim_rows now r.shown r.wallet rows).1,
            claim_rows-unused now r.shown r.wallet nonce rows,
          ))
  ]

  collect_expired-unused :
      (collects : Bool) (now : ℕ) (nonce : String) (rows : AuthNonces)
      → count_unused nonce (collect_expired collects now rows).1 ≤ count_unused nonce rows
  collect_expired-unused true now nonce rows = delete_expired-unused (now - nonce_ttl_ms) nonce rows
  collect_expired-unused false now nonce rows = omega arith

  issue-unused :
      (collects : Bool) (now : ℕ) (at wallet nonce : String) (rows : AuthNonces)
      → count_unused nonce (issue_auth_nonce keys collects now at wallet rows).1
        ≤ count_unused nonce rows + one_if (at === nonce)
  unfolding issue_auth_nonce ◌>>=◌ create_nonce count_unused
  issue-unused collects now at wallet nonce rows = elim (Option-cases (decode_key wallet)) [
    | inl e ↦ rw e (omega arith)
    | inr (key, e) ↦ elim (Option-cases (lookup at rows)) [
      | inr (row, f) ↦ rw e (ground (arith, f))
      | inl f ↦ rw e (
          ground (
            arith,
            f,
            collect_expired-unused collects now nonce (
                (
                  at,
                  record { wallet_address = wallet; expires_at = now + nonce_ttl_ms; used = false },
                )
                ∷ rows),
          ))
    ]
  ]

  -- In any run of issues and requests, from any table, the requests that a nonce lets through are
  -- at most its unused rows at the start and its issues in the run together.
  pub count_through-bound :
      (nonce : String) (calls : List AuthCall) (rows : AuthNonces)
      → count_through nonce calls rows ≤ count_unused nonce rows + count_issues nonce calls
  count_through-bound nonce [] rows = omega arith
  count_through-bound nonce (issue collects now at wallet ∷ calls) rows = omega (
    arith,
    issue-unused collects now at wallet nonce rows,
    count_through-bound nonce calls (after (issue collects now at wallet) rows),
  )
  count_through-bound nonce (present now req ∷ calls) rows = omega (
    arith,
    present-unused now nonce req rows,
    count_through-bound nonce calls (after (present now req) rows),
  )
