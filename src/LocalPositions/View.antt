-- ===== src/LocalPositions/View.antt =====
-- What the index of octora-web/src/lib/localPositions.ts shows: one entry for a wallet and an id, and what
-- each operation makes of it.
use octora.Base.{
  subst, String, ◌≡◌, refl, sym, ap, ◌∙◌, inl, inr, Bool, false, not, Option, some, List, ◌∷◌, keep,
  map, arith, ◌===◌, if◌then◌else◌, eq_iff, Bool-cases,
}
use text.Mathlib.TextLemmas.{append_cancel_left}
use octora.Base.Table.{lookup-insert}
use octora.LocalPositions.{
  StoredPosition, Json, Browser, storage_key, close_one, rebalance_one, some_entry, is_open_entry,
  is_entry, list_local_positions, store, add_local_position, mark_local_position_closed,
  mark_local_position_rebalanced, remove_local_position,
}
use octora.LocalPositions.Changes.{
  Change, adds, closes, rebalances, removes, find, map_option, changed, IsJson, closed_as,
  rebalanced_as,
}
use octora.LocalPositions.Entries.{
  present-some, close_one-closed_as, rebalance_one-rebalanced_as, find-own, find-map, map-idle,
  find-added, find-removed,
}

storage_key-same : (a b : String) → (storage_key a === storage_key b) ≡ (a === b)
storage_key-same a b = elim (Bool-cases (a === b)) [
  | inl e ↦ rw e ((eq_iff (storage_key a) (storage_key b)).1 (ap storage_key ((eq_iff a b).0 e)))
  | inr e ↦ elim (Bool-cases (storage_key a === storage_key b)) [
    | inr d ↦ rw (d, e) refl
    | inl d ↦
        let same =
          append_cancel_left "octora.positions.v1." a b
            ((eq_iff (storage_key a) (storage_key b)).0 d) in
        absurd (ground (arith, e, (eq_iff a b).1 same))
  ]
]

module _ {USD Raw : Type 0} (json : Json USD Raw) where
  unfoldable pub apply_change : Change USD → Browser Raw → Browser Raw
  apply_change (adds w p) b = add_local_position json w p b
  apply_change (closes w i meta now) b = mark_local_position_closed json w i meta now b
  apply_change (rebalances w i patch) b = mark_local_position_rebalanced json w i patch b
  apply_change (removes w i) b = remove_local_position json w i b

  abbrev pub entry : String → String → Browser Raw → Option (StoredPosition USD)
  entry wallet id b = find id (list_local_positions json (some wallet) b)

module _ {USD Raw : Type 0} (json : Json USD Raw) (laws : IsJson json) where
  open laws use {nonempty, reads_back}

  -- After a write the wallet's list is what was written, and the others' lists are as before.
  list-store :
      (w wallet : String) (ps : List (StoredPosition USD)) (b : Browser Raw)
      → (wallet === "") ≡ false
      → list_local_positions json (some wallet) (store json w ps b)
        ≡ (if w === wallet then ps else list_local_positions json (some wallet) b)
  unfolding list_local_positions
  list-store w wallet ps b g = elim (Bool-cases (w === wallet)) [
    | inl e ↦
        rw
          (
            g,
            lookup-insert (storage_key w) (storage_key wallet) (json.stringify ps) b.local_storage,
            storage_key-same w wallet,
            e,
            nonempty ps,
            reads_back ps,
          )
          (present-some ps)
    | inr e ↦
        rw
          (
            g,
            lookup-insert (storage_key w) (storage_key wallet) (json.stringify ps) b.local_storage,
            storage_key-same w wallet,
            e,
          )
          refl
  ]

  entry-store :
      (g : List (StoredPosition USD) → List (StoredPosition USD)) (w wallet id : String)
      (b : Browser Raw)
      → (wallet === "") ≡ false
      → entry json wallet id (store json w (g (list_local_positions json (some w) b)) b) ≡ (
          if w === wallet
          then find id (g (list_local_positions json (some wallet) b))
          else entry json wallet id b)
  entry-store g w wallet id b h = elim (Bool-cases (w === wallet)) [
    | inl e ↦ rw (e) (
        ap (find id) (list-store w wallet (g (list_local_positions json (some w) b)) b h)
        ∙ rw (e)
            (ap (λ x. find id (g (list_local_positions json (some x) b))) ((eq_iff w wallet).0 e)))
    | inr e ↦ rw (e) (
        ap (find id) (list-store w wallet (g (list_local_positions json (some w) b)) b h)
        ∙ rw (e) refl)
  ]

  -- A write of a mapped list, or no write where the map changes nothing.
  entry-mapped :
      (f : StoredPosition USD → StoredPosition USD) (test : StoredPosition USD → Bool)
      (same : (p : StoredPosition USD) → (f p).position_id ≡ p.position_id)
      (idle : (p : StoredPosition USD) → test p ≡ false → f p ≡ p) (w wallet id : String)
      (b : Browser Raw)
      → (wallet === "") ≡ false
      → entry json wallet id (
          if some_entry test (list_local_positions json (some w) b)
          then store json w (map f (list_local_positions json (some w) b)) b
          else b)
        ≡ (if w === wallet then map_option f (entry json wallet id b) else entry json wallet id b)
  entry-mapped f test same idle w wallet id b h =
      elim (Bool-cases (some_entry test (list_local_positions json (some w) b))) [
        | inl c ↦ rw (c) (entry-store (map f) w wallet id b h ∙ mapped)
        | inr c ↦ rw (c) (unmapped c)
      ]
    where
      mapped :
          (if w === wallet
            then find id (map f (list_local_positions json (some wallet) b))
            else entry json wallet id b)
          ≡ (if w === wallet then map_option f (entry json wallet id b) else entry json wallet id b)
      mapped = rw (find-map f same id (list_local_positions json (some wallet) b)) refl

      unmapped :
          some_entry test (list_local_positions json (some w) b) ≡ false
          → entry json wallet id b ≡ (
              if w === wallet
              then map_option f (entry json wallet id b)
              else entry json wallet id b)
      unmapped c = elim (Bool-cases (w === wallet)) [
        | inr e ↦ rw (e) refl
        | inl e ↦ rw (e) (
            sym (
              ap (find id) (
                map-idle f test idle (list_local_positions json (some wallet) b) (
                  subst (λ x. some_entry test (list_local_positions json (some x) b) ≡ false)
                    ((eq_iff w wallet).0 e) c)))
            ∙ find-map f same id (list_local_positions json (some wallet) b))
      ]

  -- Where JSON reads back what it wrote, each change makes of the entry under a wallet and an id what its
  -- specification says, field by field (added; closed unless it is closed already; rebalanced; removed),
  -- and leaves the entries of other wallets and other ids as they are.
  pub entry-apply_change :
      (c : Change USD) (wallet id : String) (b : Browser Raw)
      → (wallet === "") ≡ false
      → entry json wallet id (apply_change json c b) ≡ changed c wallet id (entry json wallet id b)
  unfolding apply_change changed add_local_position mark_local_position_closed
      mark_local_position_rebalanced remove_local_position
  entry-apply_change (adds w p) wallet id b h = elim (Bool-cases (w === "")) [
    | inl e ↦ rw e refl
    | inr e ↦ rw e (
        entry-store (λ xs. p ∷ keep (λ q. not (q.position_id === p.position_id)) xs) w wallet id b h
        ∙ find-added (w === wallet) id p (list_local_positions json (some wallet) b))
  ]
  entry-apply_change (closes w i meta now) wallet id b h = elim (Bool-cases (w === "")) [
    | inl e ↦ rw e refl
    | inr e ↦ rw e (
        entry-mapped (close_one i meta now) (is_open_entry i) (λ p. ground arith)
          (λ p n. ground (arith, n)) w wallet id b h
        ∙ find-own (close_one i meta now) (closed_as meta now) i id (close_one-closed_as i meta now)
            (λ p n. ground (arith, n)) (w === wallet) (list_local_positions json (some wallet) b))
  ]
  entry-apply_change (rebalances w i patch) wallet id b h = elim (Bool-cases (w === "")) [
    | inl e ↦ rw e refl
    | inr e ↦ rw e (
        entry-mapped (rebalance_one i patch) (is_entry i) (λ p. ground arith)
          (λ p n. ground (arith, n)) w wallet id b h
        ∙ find-own (rebalance_one i patch) (rebalanced_as patch) i id
            (rebalance_one-rebalanced_as i patch) (λ p n. ground (arith, n)) (w === wallet)
            (list_local_positions json (some wallet) b))
  ]
  entry-apply_change (removes w i) wallet id b h = elim (Bool-cases (w === "")) [
    | inl e ↦ rw e refl
    | inr e ↦ rw e (
        entry-store (keep (λ q. not (q.position_id === i))) w wallet id b h
        ∙ find-removed (w === wallet) id i (list_local_positions json (some wallet) b))
  ]
