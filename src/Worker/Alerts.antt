-- ===== src/Worker/Alerts.antt =====
-- Which failures a tick of octora-api/src/modules/positions/recovery-worker.ts reports.
use octora.Base.{
  ℕ, ◌≤◌, ◌≡◌, ◌↔◌, ◌⊎◌, inl, inr, refl, sym, subst, Bool, true, List, [], ◌∷◌, arith, take, keep,
  All, Bool-cases,
}
use octora.Base.Table.{values}
use octora.Domain.{failed}
use octora.Domain.Graph.{is_state_iff}
use octora.Store.{World, PositionRow}
use octora.Store.Queries.{
  insert_row, sort_onto, newest_first, is_recent_failure, find_recently_failed,
}
use octora.Platform.{Platform}
use octora.Worker.{Rpc, tick, recover_executing, recover_indexing}

-- A row stands in a list.
abbrev pub Has : PositionRow → List PositionRow → Type 0
Has row [] = ⊥
Has row (x ∷ xs) = (x ≡ row) ⊎ Has row xs

-- The rows stand from the newest to the oldest.
abbrev pub Descends : List PositionRow → Type 0
Descends [] = Unit {0}
Descends (x ∷ xs) = All (λ y. y.updated_at ≤ x.updated_at) xs × Descends xs

-- What the scan asks of a row, by the meaning of its two tests.
recent_failure_iff :
    (last : ℕ) (row : PositionRow)
    → (is_recent_failure last row ≡ true) ↔ ((row.state ≡ failed) × (last ≤ row.updated_at))
recent_failure_iff last row = (
  (λ h. (is_state_iff row.state failed (ground (arith, h)), ground (arith, h))),
  (λ (s, l). rw s (ground (arith, l))),
)

All-insert_row :
    (P : PositionRow → Type 0) (row : PositionRow) (rows : List PositionRow)
    → P row
    → All P rows
    → All P (insert_row newest_first row rows)
unfolding insert_row
All-insert_row P row [] p h = (p, tt)
All-insert_row P row (x ∷ xs) p h = elim (Bool-cases (newest_first x row)) [
  | inl e ↦ rw e (h.0, All-insert_row P row xs p h.1)
  | inr e ↦ rw e (p, h)
]

Has-keep :
    (p : PositionRow → Bool) (row : PositionRow) (rows : List PositionRow)
    → Has row (keep p rows) ↔ (Has row rows × (p row ≡ true))
Has-keep p row [] = ((λ h. absurd h), (λ h. absurd h.0))
Has-keep p row (x ∷ rows) =
    let ih = Has-keep p row rows in
    elim (Bool-cases (p x)) [
      | inl e ↦ rw e (
        (λ h. elim h [
          | inl q ↦ (inl q, subst (λ z. p z ≡ true) q e)
          | inr q ↦ (inr (ih.0 q).0, (ih.0 q).1)
        ]),
        (λ (m, k). elim m [ inl q ↦ inl q | inr q ↦ inr (ih.1 (q, k)) ]),
      )
      | inr e ↦ rw e (
        (λ h. (inr (ih.0 h).0, (ih.0 h).1)),
        (λ (m, k). elim m [
          | inl q ↦ absurd (ground (arith, e, subst (λ z. p z ≡ true) (sym q) k))
          | inr q ↦ ih.1 (q, k)
        ]),
      )
    ]

Has-insert_row :
    (row x : PositionRow) (rows : List PositionRow)
    → Has row (insert_row newest_first x rows) ↔ ((x ≡ row) ⊎ Has row rows)
unfolding insert_row
Has-insert_row row x [] = ((λ h. h), (λ h. h))
Has-insert_row row x (y ∷ rows) =
    let ih = Has-insert_row row x rows in
    elim (Bool-cases (newest_first y x)) [
      | inl e ↦ rw e (
        (λ h. elim h [
          | inl q ↦ inr (inl q)
          | inr q ↦ elim (ih.0 q) [ inl k ↦ inl k | inr k ↦ inr (inr k) ]
        ]),
        (λ h. elim h [
          | inl q ↦ inr (ih.1 (inl q))
          | inr (inl q) ↦ inl q
          | inr (inr q) ↦ inr (ih.1 (inr q))
        ]),
      )
      | inr e ↦ rw e ((λ h. h), (λ h. h))
    ]

Has-sort_onto :
    (row : PositionRow) (sorted rows : List PositionRow)
    → Has row (sort_onto newest_first sorted rows) ↔ (Has row sorted ⊎ Has row rows)
unfolding sort_onto
Has-sort_onto row sorted [] = ((λ h. inl h), (λ h. elim h [ inl q ↦ q | inr q ↦ absurd q ]))
Has-sort_onto row sorted (x ∷ rows) =
    let ih = Has-sort_onto row (insert_row newest_first x sorted) rows in
    let placed = Has-insert_row row x sorted in
    (
      (λ h. elim (ih.0 h) [
        | inr q ↦ inr (inr q)
        | inl q ↦ elim (placed.0 q) [ inl k ↦ inr (inl k) | inr k ↦ inl k ]
      ]),
      (λ h. elim h [
        | inl q ↦ ih.1 (inl (placed.1 (inr q)))
        | inr (inl q) ↦ ih.1 (inl (placed.1 (inl q)))
        | inr (inr q) ↦ ih.1 (inr q)
      ]),
    )

All-older :
    (x y : PositionRow) (rows : List PositionRow)
    → y.updated_at ≤ x.updated_at
    → All (λ z. z.updated_at ≤ y.updated_at) rows
    → All (λ z. z.updated_at ≤ x.updated_at) rows
All-older x y [] l h = tt
All-older x y (z ∷ rows) l h = (omega (arith, l, h.0), All-older x y rows l h.1)

Descends-insert_row :
    (x : PositionRow) (rows : List PositionRow)
    → Descends rows
    → Descends (insert_row newest_first x rows)
unfolding insert_row
Descends-insert_row x [] h = (tt, tt)
Descends-insert_row x (y ∷ rows) h = elim (Bool-cases (newest_first y x)) [
  | inl e ↦ rw e (
    All-insert_row (λ z. z.updated_at ≤ y.updated_at) x rows (ground (arith, e)) h.0,
    Descends-insert_row x rows h.1,
  )
  | inr e ↦
      let l : y.updated_at ≤ x.updated_at = ground (arith, e) in
      rw e ((l, All-older x y rows l h.0), h)
]

Descends-sort_onto :
    (sorted rows : List PositionRow)
    → Descends sorted
    → Descends (sort_onto newest_first sorted rows)
unfolding sort_onto
Descends-sort_onto sorted [] h = h
Descends-sort_onto sorted (x ∷ rows) h =
    Descends-sort_onto (insert_row newest_first x sorted) rows (Descends-insert_row x sorted h)

-- The alerts of a tick are the first 50 of a list that goes from the newest to the oldest row and holds
-- just the rows of the store after the tick that are failed and were written at the last scan's start or
-- later.
pub tick-alerts :
    {F : Type 0} (platform : Platform F) (rpc : Rpc) (last now : ℕ) (w : World)
    → let t = tick platform rpc last now w in
      (all : List PositionRow) × (t.alerts ≡ take 50 all)
      × Descends all
      × ((row : PositionRow)
          → Has row all
            ↔ (Has row (values t.world.positions) × (row.state ≡ failed) × (last ≤ row.updated_at)))
unfolding tick find_recently_failed
tick-alerts platform rpc last now w =
    let (w₁, r₁) = recover_executing platform rpc now w in
    let rows = values (recover_indexing platform now w₁ r₁).0.positions in
    let found = keep (is_recent_failure last) rows in
    (
      sort_onto newest_first [] found,
      refl,
      Descends-sort_onto [] found tt,
      (λ row.
          let sorted = Has-sort_onto row [] found in
          let kept = Has-keep (is_recent_failure last) row rows in
          let test = recent_failure_iff last row in
          (
            (λ h. elim (sorted.0 h) [
              | inl q ↦ absurd q
              | inr q ↦ let (f, l) = test.0 (kept.0 q).1 in ((kept.0 q).0, f, l)
            ]),
            (λ (m, f, l). sorted.1 (inr (kept.1 (m, test.1 (f, l))))),
          )),
    )
