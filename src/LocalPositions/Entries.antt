-- ===== src/LocalPositions/Entries.antt =====
-- The entry of a list under an id in octora-web/src/lib/localPositions.ts.
use octora.Base.{
  ℕ, String, ◌≡◌, refl, sym, ap, ◌∙◌, inl, inr, Bool, true, false, not, ◌&&◌, Option, none, some,
  List, [], ◌∷◌, keep, map, arith, ◌===◌, if◌then◌else◌, eq_iff, Bool-cases,
}
use octora.Recovery.{or_else}
use octora.LocalPositions.{
  StoredPosition, CloseMetadata, RebalanceMetadata, Signatures, present, close_one, rebalance_one,
  some_entry, funded, no_signatures,
}
use octora.LocalPositions.Changes.{find, map_option, closed_as, rebalanced_as, signatures_as}

funded-signatures_as :
    (fund : Option String) (s : Option Signatures)
    → funded fund (or_else s no_signatures) ≡ signatures_as fund s
funded-signatures_as none none = refl
funded-signatures_as none (some s) = refl
funded-signatures_as (some text) none = ground arith
funded-signatures_as (some text) (some s) = ground arith

module _ {USD : Type 0} where
  pub present-some : (ps : List (StoredPosition USD)) → present (map some ps) ≡ ps
  present-some [] = refl
  present-some (p ∷ ps) = ap (λ xs. p ∷ xs) (present-some ps)

  pub find-keep :
      (id other : String) (ps : List (StoredPosition USD))
      → find id (keep (λ p. not (p.position_id === other)) ps)
        ≡ (if other === id then none else find id ps)
  find-keep id other [] = ground arith
  find-keep id other (p ∷ ps) = ground (
    arith,
    find-keep id other ps,
    eq_iff p.position_id other,
    eq_iff p.position_id id,
    eq_iff other id,
  )

  pub find-added :
      (own : Bool) (id : String) (p : StoredPosition USD) (ps : List (StoredPosition USD))
      → (if own
          then find id (p ∷ keep (λ q. not (q.position_id === p.position_id)) ps)
          else find id ps)
        ≡ (if own && (p.position_id === id) then some p else find id ps)
  find-added false id p ps = refl
  find-added true id p ps = elim (Bool-cases (p.position_id === id)) [
    | inl e ↦ rw e refl
    | inr e ↦ rw e (rw (find-keep id p.position_id ps, e) refl)
  ]

  pub find-removed :
      (own : Bool) (id other : String) (ps : List (StoredPosition USD))
      → (if own then find id (keep (λ q. not (q.position_id === other)) ps) else find id ps)
        ≡ (if own && (other === id) then none else find id ps)
  find-removed false id other ps = refl
  find-removed true id other ps = find-keep id other ps

  pub find-map :
      (f : StoredPosition USD → StoredPosition USD)
      (same : (p : StoredPosition USD) → (f p).position_id ≡ p.position_id) (id : String)
      (ps : List (StoredPosition USD))
      → find id (map f ps) ≡ map_option f (find id ps)
  find-map f same id [] = refl
  find-map f same id (p ∷ ps) = elim (Bool-cases (p.position_id === id)) [
    | inl e ↦ rw (ap (λ x. x === id) (same p) ∙ e, e) refl
    | inr e ↦ rw (ap (λ x. x === id) (same p) ∙ e, e) (find-map f same id ps)
  ]

  -- A map that leaves each entry as it is leaves the list as it is.
  pub map-idle :
      (f : StoredPosition USD → StoredPosition USD) (test : StoredPosition USD → Bool)
      (idle : (p : StoredPosition USD) → test p ≡ false → f p ≡ p) (ps : List (StoredPosition USD))
      → some_entry test ps ≡ false
      → map f ps ≡ ps
  map-idle f test idle [] h = refl
  map-idle f test idle (p ∷ ps) h = elim (Bool-cases (test p)) [
    | inl e ↦ absurd (ground (arith, e, h))
    | inr e ↦ rw (idle p e) (ap (λ xs. p ∷ xs) (map-idle f test idle ps (ground (arith, e, h))))
  ]

  -- A map that changes one position by `g` and leaves the others changes the entry under one id.
  pub find-own :
      (f g : StoredPosition USD → StoredPosition USD) (i id : String)
      (own : (p : StoredPosition USD) → p.position_id ≡ i → f p ≡ g p)
      (apart : (p : StoredPosition USD) → (p.position_id === i) ≡ false → f p ≡ p) (mine : Bool)
      (ps : List (StoredPosition USD))
      → (if mine then map_option f (find id ps) else find id ps)
        ≡ (if mine && (i === id) then map_option g (find id ps) else find id ps)
  find-own f g i id own apart false ps = refl
  find-own f g i id own apart true [] = ground arith
  find-own f g i id own apart true (p ∷ ps) = elim (Bool-cases (p.position_id === id)) [
    | inr e ↦ rw e (find-own f g i id own apart true ps)
    | inl e ↦
        let at_id = (eq_iff p.position_id id).0 e in
        elim (Bool-cases (i === id)) [
          | inl k ↦ rw (e, k) (ap some (own p (at_id ∙ sym ((eq_iff i id).0 k))))
          | inr k ↦
              let differs : (p.position_id === i) ≡ false =
                ground (arith, k, at_id, eq_iff i id, eq_iff p.position_id i) in
              rw (e, k) (ap some (apart p differs))
        ]
  ]

  pub close_one-closed_as :
      (i : String) (meta : CloseMetadata) (now : ℕ) (p : StoredPosition USD)
      → p.position_id ≡ i
      → close_one i meta now p ≡ closed_as meta now p
  close_one-closed_as i meta now p e = rw ((eq_iff p.position_id i).1 e) refl

  pub rebalance_one-rebalanced_as :
      (i : String) (patch : RebalanceMetadata) (p : StoredPosition USD)
      → p.position_id ≡ i
      → rebalance_one i patch p ≡ rebalanced_as patch p
  rebalance_one-rebalanced_as i patch p e = rw ((eq_iff p.position_id i).1 e) (
      ap
        (λ s. record p {
          lower_bin_id = patch.lower_bin_id;
          upper_bin_id = patch.upper_bin_id;
          shape = patch.shape;
          position_pubkey = patch.position_pubkey;
          signatures = some s;
        })
        (funded-signatures_as patch.fund_signature p.signatures))
