-- ===== src/Routes/Owned.antt =====
-- Who may change a position through the routes of octora-api/src/modules/positions.
use octora.Base.{
  ℕ, String, ◌≡◌, refl, ◌⊎◌, inl, inr, true, Option, none, some, ◌===◌, eq_iff, Bool-cases,
}
use octora.Base.Table.{lookup}
use octora.Base.Effect.{ok, err}
use octora.Store.{World, Task, PositionRow}
use octora.Platform.{Platform, PrivacyAdapter, MeteoraExecutor}
use octora.Position.Reply.{PositionResponse}
use octora.RateLimit.{Verdict, passes, refuses, pre_handler}
use octora.Auth.{
  AuthNonces, AuthenticatedWallet, Keys, Request, given, is_listed, require_beta_access,
  verify_ed25519_detached,
}
use octora.Auth.Nonces.{claim_rows}
use octora.Auth.Cases.{Readable, require_wallet_signature-ends, wallet_of}
use octora.Lifecycle.{Order, deposits, claims, withdraws, perform}
use octora.Routes.{
  Server, OwnerRoute, executes, pre_handlers, owner_handler, owner_route, mutate_limit, after_limit,
  after_signature,
}
use octora.Routes.Controller.{
  HandlerReply, foreign_position, require_wallet, owner_of, require_position_owner, as_owner,
  execute_intent, claim_handler, withdraw_close_handler,
}

-- The order that a route gives to the position service.
abbrev pub order_of : OwnerRoute → Order
order_of (executes message) = deposits message
order_of OwnerRoute.claims = claims
order_of OwnerRoute.withdraws = withdraws

-- The position stands in the store, and its wallet is this one.
abbrev pub IsOwner : AuthenticatedWallet → String → World → Type 0
IsOwner wallet id w =
    (position : PositionRow) × (lookup id w.positions ≡ some position)
    × (position.wallet_address ≡ wallet.address)

module _ (keys : Keys) where
  open keys use {encode_key, from_utf8}

  -- The request carries a nonce that its wallet has signed.
  abbrev pub IsSigned : {req : Request} → Readable keys req → Type 0
  IsSigned r = verify_ed25519_detached keys (from_utf8 r.shown) r.bytes r.pubkey ≡ true

  -- What the wallet's claim to a position rests on.
  abbrev pub IsCleared : String → Request → Server → Type 0
  IsCleared id req server =
      (r : Readable keys req) × IsSigned r
      × (is_listed (encode_key r.pubkey) server.approved ≡ true)
      × IsOwner (record { address = encode_key r.pubkey; pubkey = r.pubkey }) id server.world

owner_of-cases :
    (wallet : String) (row : Option PositionRow)
    → ((reply : HandlerReply) × (owner_of wallet row ≡ err reply))
      ⊎ ((position : PositionRow) × (row ≡ some position)
          × (position.wallet_address ≡ wallet)
          × (owner_of wallet row ≡ ok wallet))
owner_of-cases wallet none = inl (_, refl)
owner_of-cases wallet (some p) = elim (Bool-cases (p.wallet_address === wallet)) [
  | inl e ↦ inr (p, refl, (eq_iff p.wallet_address wallet).0 e, rw e refl)
  | inr e ↦ inl (foreign_position, rw e refl)
]

as_owner-cases :
    (wallet : AuthenticatedWallet) (id : String) (call : Task PositionResponse) (w : World)
    → ((as_owner (some wallet) id call w).1 ≡ w)
      ⊎ (IsOwner wallet id w × ((as_owner (some wallet) id call w).1 ≡ (call w).1))
unfolding as_owner require_position_owner require_wallet given
as_owner-cases wallet id call w = elim (Bool-cases (wallet.address === "")) [
  | inl e ↦ inl (rw (as_owner, e) refl)
  | inr e ↦ elim (owner_of-cases wallet.address (lookup id w.positions)) [
    | inl (reply, f) ↦ inl (rw (as_owner, e, f) refl)
    | inr (p, l, o, f) ↦ inr ((p, l, o), rw (as_owner, e, f) refl)
  ]
]

module _ {F : Type 0} (platform : Platform F) (adapter : PrivacyAdapter)
    (executor : MeteoraExecutor) where
  owner_handler-cases :
      (route : OwnerRoute) (wallet : AuthenticatedWallet) (id : String) (w : World)
      → ((owner_handler platform adapter executor route id (some wallet) w).1 ≡ w)
        ⊎ (IsOwner wallet id w
            × ((owner_handler platform adapter executor route id (some wallet) w).1
                ≡ (perform platform adapter executor id (order_of route) w).1))
  unfolding execute_intent claim_handler withdraw_close_handler perform
  owner_handler-cases (executes message) wallet id w = as_owner-cases wallet id _ w
  owner_handler-cases OwnerRoute.claims wallet id w = as_owner-cases wallet id _ w
  owner_handler-cases OwnerRoute.withdraws wallet id w = as_owner-cases wallet id _ w

  after_signature-cases :
      (route : OwnerRoute) (id : String) (wallet : AuthenticatedWallet) (nonces : AuthNonces)
      (server : Server)
      → ((after_signature
            (owner_handler platform adapter executor route id)
            (ok wallet, nonces)
            server).1.world
          ≡ server.world)
        ⊎ ((is_listed wallet.address server.approved ≡ true)
            × IsOwner wallet id server.world
            × ((after_signature
                  (owner_handler platform adapter executor route id)
                  (ok wallet, nonces)
                  server).1.world
                ≡ (perform platform adapter executor id (order_of route) server.world).1))
  unfolding require_beta_access
  after_signature-cases route id wallet nonces server =
      elim (Bool-cases (is_listed wallet.address server.approved)) [
        | inr e ↦ inl (rw e refl)
        | inl e ↦ elim (owner_handler-cases route wallet id server.world) [
          | inl same ↦ inl (rw e same)
          | inr (owner, run) ↦ inr (e, owner, rw e run)
        ]
      ]

  module _ (keys : Keys) where
    pre_handlers-cases :
        (route : OwnerRoute) (id : String) (now : ℕ) (req : Request) (server : Server)
        → ((pre_handlers keys
              (owner_handler platform adapter executor route id)
              now
              req
              server).1.world
            ≡ server.world)
          ⊎ (IsCleared keys id req server
              × ((pre_handlers keys
                    (owner_handler platform adapter executor route id)
                    now
                    req
                    server).1.world
                  ≡ (perform platform adapter executor id (order_of route) server.world).1))
    unfolding pre_handlers
    pre_handlers-cases route id now req server =
        elim (require_wallet_signature-ends keys now req server.nonces) [
          | inl (f, later, e) ↦ inl (rw (pre_handlers, e) refl)
          | inr (r, n, v, e) ↦
              elim (after_signature-cases route id (wallet_of keys r)
                (claim_rows now r.shown r.wallet server.nonces).1 server) [
                  | inl same ↦ inl (rw (pre_handlers, e) same)
                  | inr (listed, owner, run) ↦ inr ((r, v, listed, owner), rw (pre_handlers, e) run)
                ]
        ]

    after_limit-cases :
        (route : OwnerRoute) (id : String) (now : ℕ) (req : Request) (verdict : Verdict)
        (server : Server)
        → ((after_limit keys
              (owner_handler platform adapter executor route id)
              now
              req
              verdict
              server).1.world
            ≡ server.world)
          ⊎ (IsCleared keys id req server
              × ((after_limit keys
                    (owner_handler platform adapter executor route id)
                    now
                    req
                    verdict
                    server).1.world
                  ≡ (perform platform adapter executor id (order_of route) server.world).1))
    after_limit-cases route id now req (refuses ms sec) server = inl refl
    after_limit-cases route id now req passes server = pre_handlers-cases route id now req server

    -- A request to one of the three routes of a position leaves the positions as they were, or it has
    -- been signed by a wallet on the beta list that owns this position, and the positions are then as the
    -- service's call leaves them.
    pub owner_route-IsCleared :
        (route : OwnerRoute) (id : String) (now : ℕ) (ip : Option String) (req : Request)
        (server : Server)
        → ((owner_route keys platform adapter executor route id now ip req server).1.world
            ≡ server.world)
          ⊎ (IsCleared keys id req server
              × ((owner_route keys platform adapter executor route id now ip req server).1.world
                  ≡ (perform platform adapter executor id (order_of route) server.world).1))
    unfolding owner_route
    owner_route-IsCleared route id now ip req server =
        after_limit-cases route id now req (pre_handler mutate_limit now ip server.mutate_buckets).0
          (record server {
            mutate_buckets = (pre_handler mutate_limit now ip server.mutate_buckets).1;
          })
