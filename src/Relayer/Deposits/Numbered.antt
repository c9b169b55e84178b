-- ===== src/Relayer/Deposits/Numbered.antt =====
-- The leaf numbers of octora-api/src/modules/relayer/deposit.service.ts.
use octora.Base.{
  ℕ, suc, ◌+◌, String, ◌≡◌, refl, sym, ap, subst, ◌∙◌, ◌⊎◌, inl, inr, some, List, [], ◌∷◌, ◌++◌,
  arith, length, map, Bool-cases,
}
use octora.Base.Integers.{ℤ, pos, less}
use octora.Base.Effect.{ok, err, ◌>>=◌}
use octora.Vault.{
  MerkleLibrary, IsAppending, create_vault_merkle_tree, elements, insert_leaf-cases, tree_levels,
}
use octora.Relayer.Deposits.{
  DepositRecord, DepositError, commitment_not_positive, no_real_signature, tree_failed,
  DepositService, historical, initialize, is_no_signature, deposit_record, record_deposit,
  next_leaf_index,
}

-- The records stand at the leaves with these texts, counted from this number on.
abbrev pub Numbers : ℕ → List String → List DepositRecord → Type 0
Numbers i [] [] = Unit {0}
Numbers i [] (d ∷ deposits) = ⊥
Numbers i (leaf ∷ leaves) [] = ⊥
Numbers i (leaf ∷ leaves) (d ∷ deposits) =
    (d.leaf_index ≡ pos i) × (d.commitment ≡ leaf) × Numbers (suc i) leaves deposits

Numbers-length :
    (i : ℕ) (leaves : List String) (ds : List DepositRecord)
    → Numbers i leaves ds
    → length leaves ≡ length ds
Numbers-length i [] [] h = refl
Numbers-length i [] (d ∷ ds) h = absurd h
Numbers-length i (leaf ∷ leaves) [] h = absurd h
Numbers-length i (leaf ∷ leaves) (d ∷ ds) h = omega (arith, Numbers-length (suc i) leaves ds h.2)

Numbers-append :
    (i : ℕ) (leaves : List String) (ds : List DepositRecord) (leaf : String) (d : DepositRecord)
    → Numbers i leaves ds
    → d.leaf_index ≡ pos (i + length leaves)
    → d.commitment ≡ leaf
    → Numbers i (leaves ++ leaf ∷ []) (ds ++ d ∷ [])
Numbers-append i [] [] leaf d h e c = (e ∙ ap pos (omega arith), c, tt)
Numbers-append i [] (x ∷ ds) leaf d h e c = absurd h
Numbers-append i (y ∷ leaves) [] leaf d h e c = absurd h
Numbers-append i (y ∷ leaves) (x ∷ ds) leaf d h e c =
    (h.0, h.1, Numbers-append (suc i) leaves ds leaf d h.2 (e ∙ ap pos (omega arith)) c)

module _ {Tree : Type 0} (lib : MerkleLibrary Tree) (text_length : String → ℕ)
    (laws : IsAppending lib) where
  Numbers-historical :
      (i : ℕ) (leaves : List ℤ)
      → Numbers i (map lib.to_text leaves) (historical lib text_length i leaves)
  Numbers-historical i [] = tt
  Numbers-historical i (c ∷ leaves) = (refl, refl, Numbers-historical (suc i) leaves)

  -- The service is initialised, and its records are the leaves of the tree in their order.
  abbrev pub IsNumbered : DepositService Tree → Type 0
  IsNumbered s = (tree : Tree) × (s.tree ≡ some tree) × Numbers 0 (elements lib tree) s.deposits

  pub initialize-IsNumbered :
      (leaves : List ℤ) (tree : Tree) (s : DepositService Tree)
      → create_vault_merkle_tree lib tree_levels leaves ≡ some tree
      → IsNumbered (initialize lib text_length leaves s).1
  unfolding initialize create_vault_merkle_tree elements ◌>>=◌
  initialize-IsNumbered leaves tree s e =
      let texts = map lib.to_text leaves in
      let kept =
        subst (λ xs. Numbers 0 xs (historical lib text_length 0 leaves))
          (sym (laws.elements_new tree_levels texts tree e)) (Numbers-historical 0 leaves) in
      rw e (tree, refl, kept)

  -- Where the library appends leaves at the end, in a service whose records are the leaves of its tree in
  -- their order, a deposit is recorded at the leaf that `nextLeafIndex` gives, or an error is thrown and
  -- nothing has changed; either way the records are still the leaves in their order.
  pub record_deposit-IsNumbered :
      (commitment : ℤ) (signature : String) (time : ℕ) (s : DepositService Tree)
      → IsNumbered s
      → IsNumbered (record_deposit lib text_length commitment signature time s).1
        × (((e : DepositError) × (record_deposit lib text_length commitment signature time s
                ≡ (err e, s)))
            ⊎ ((record_deposit lib text_length commitment signature time s).0
                ≡ (next_leaf_index lib text_length s).0))
  unfolding record_deposit next_leaf_index ◌>>=◌
  record_deposit-IsNumbered commitment signature time s (tree, t, n) =
      elim (Bool-cases (less (pos 0) commitment)) [
        | inr f ↦ rw (t, f) ((tree, refl, n), inl (commitment_not_positive, refl))
        | inl f ↦ elim (Bool-cases (is_no_signature lib text_length signature)) [
          | inl g ↦ rw (t, f, g) ((tree, refl, n), inl (no_real_signature, refl))
          | inr g ↦ elim (insert_leaf-cases lib laws commitment tree) [
            | inl h ↦ rw (t, f, g, h) ((tree, refl, n), inl (tree_failed, refl))
            | inr (later, h, grown) ↦
                let place = Numbers-length 0 (elements lib tree) s.deposits n in
                let added =
                  deposit_record lib text_length commitment signature time
                    (pos (length (elements lib tree))) in
                rw (t, f, g, h)
                  (
                    (
                      later,
                      refl,
                      rw grown (
                          Numbers-append 0 (elements lib tree) s.deposits (lib.to_text commitment)
                            added n (ap pos (omega arith)) refl),
                    ),
                    inr (ap (λ k. ok (pos k)) place),
                  )
          ]
        ]
      ]
