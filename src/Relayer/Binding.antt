-- ===== src/Relayer/Binding.antt =====
-- What a request that passes `guardRequest` and `checkPublicSignalsParity` of
-- octora-api/src/modules/relayer/relayer.service.ts is bound to.
use octora.Base.{
  String, ◌≡◌, refl, ap, sym, Bool, true, false, ◌&&◌, ◌↔◌, if◌then◌else◌, Bool-cases, Option, none,
  some, List, [], ◌∷◌, arith, eq_iff, inl, inr, ◌⊎◌,
}
use octora.Base.Integers.{ℤ, less, same}
use octora.Relayer.{foreign_relayer, WithdrawRequest, RelayerConfig, Crypto}
use octora.Relayer.Checks.{
  guard_request, check_public_signals_parity, check_signals, check_list, is_ours, fee_failure,
}

-- Two texts that stand for the same number.
abbrev pub agrees : Option ℤ → Option ℤ → Bool
agrees (some a) (some b) = same a b
agrees _ _ = false

module _ {Proof : Type 0} (crypto : Crypto Proof) where
  open crypto use {big_int, field_hash}

  -- Five signals: the root, the nullifier hash, the hashes of the recipient's and the relayer's
  -- keys, and the fee.
  abbrev pub binds : WithdrawRequest Proof → List String → Bool
  binds request (a ∷ b ∷ c ∷ d ∷ e ∷ []) =
      agrees (big_int request.root) (big_int a)
      && agrees (big_int request.nullifier_hash) (big_int b)
      && agrees (field_hash request.recipient) (big_int c)
      && agrees (field_hash request.relayer) (big_int d)
      && agrees (big_int request.fee) (big_int e)
  binds request signals = false

  binds_five :
      (request : WithdrawRequest Proof) (a b c d e : Option ℤ)
      → (check_signals crypto request a b c d e ≡ none) ↔ (
          (agrees (big_int request.root) a
            && agrees (big_int request.nullifier_hash) b
            && agrees (field_hash request.recipient) c
            && agrees (field_hash request.relayer) d
            && agrees (big_int request.fee) e)
          ≡ true)
  binds_five request a b c d e = ground arith

  binds_list :
      (request : WithdrawRequest Proof) (signals : List String)
      → (check_list crypto request signals ≡ none) ↔ (binds request signals ≡ true)
  binds_list request [] = ground arith
  binds_list request (a ∷ []) = ground arith
  binds_list request (a ∷ b ∷ []) = ground arith
  binds_list request (a ∷ b ∷ c ∷ []) = ground arith
  binds_list request (a ∷ b ∷ c ∷ d ∷ []) = ground arith
  binds_list request (a ∷ b ∷ c ∷ d ∷ e ∷ []) =
      binds_five request (big_int a) (big_int b) (big_int c) (big_int d) (big_int e)
  binds_list request (a ∷ b ∷ c ∷ d ∷ e ∷ f ∷ signals) = ground arith

  -- The parity check passes just where there are five public signals and each of the five fields
  -- of the request agrees with its own.
  pub check_public_signals_parity-binds :
      (request : WithdrawRequest Proof)
      → (check_public_signals_parity crypto request ≡ none)
        ↔ (binds request request.public_signals ≡ true)
  unfolding check_public_signals_parity
  check_public_signals_parity-binds request = binds_list request request.public_signals

  ours_iff :
      (client : Option String) (relayer : String)
      → (is_ours crypto client relayer ≡ true) ↔ ((client ≡ none) ⊎ (client ≡ some relayer))
  ours_iff none relayer = (λ _. inl refl, λ _. refl)
  ours_iff (some ours) relayer = (
    λ h. inr (ap some (sym ((eq_iff relayer ours).0 h))),
    λ h. elim h [ inl e ↦ absurd (cc) | inr e ↦ (eq_iff relayer ours).1 (sym (some_inj e)) ],
  )
    where
      some_inj : {a b : String} → some a ≡ some b → a ≡ b
      some_inj h = cc

  fee_iff :
      (minimum : ℤ) (fee : Option ℤ)
      → (fee_failure crypto minimum fee ≡ none)
        ↔ ((x : ℤ) × (fee ≡ some x) × (less x minimum ≡ false))
  fee_iff minimum none = (λ h. absurd (cc), λ (x, e, l). absurd (cc))
  fee_iff minimum (some y) = (λ h. (y, refl, ground (arith, h)), λ (x, e, l). ground (arith, e, l))

  guarded :
      (client : Option String) (fee : Option ℤ) (minimum : ℤ) (relayer : String)
      → ((if is_ours crypto client relayer
            then fee_failure crypto minimum fee
            else some foreign_relayer)
          ≡ none)
        ↔ ((x : ℤ) × (fee ≡ some x)
            × (less x minimum ≡ false)
            × ((client ≡ none) ⊎ (client ≡ some relayer)))
  guarded client fee minimum relayer = (
    λ h. elim (Bool-cases (is_ours crypto client relayer)) [
      | inl o ↦
          let (x, e, l) = (fee_iff minimum fee).0 (ground (arith, h, o)) in
          (x, e, l, (ours_iff client relayer).0 o)
      | inr o ↦ absurd (ground (arith, h, o))
    ],
    λ (x, e, l, c). rw ((ours_iff client relayer).1 c) ((fee_iff minimum fee).1 (x, e, l)),
  )

  -- The guard lets a request pass just where its fee is a number that reaches the minimum, and it
  -- names this relayer's wallet, if the client has one.
  pub guard_request_iff :
      (config : RelayerConfig) (request : WithdrawRequest Proof)
      → (guard_request crypto config request ≡ none) ↔ (
          (fee : ℤ) × (big_int request.fee ≡ some fee)
          × (less fee config.min_fee_lamports ≡ false)
          × ((config.client ≡ none) ⊎ (config.client ≡ some request.relayer)))
  unfolding guard_request
  guard_request_iff config request =
      guarded config.client (big_int request.fee) config.min_fee_lamports request.relayer
