-- ===== src/SolanaTx/Quarter.antt =====
-- The fee that `pickPriorityFeeMicroLamports` takes from the samples is their third quartile.
use octora.Base.{
  ℕ, zero, suc, ◌+◌, ◌*◌, ◌≤◌, ◌<◌, ◌≡◌, refl, List, [], ◌∷◌, arith, leb, length, if◌then◌else◌,
  Bool-cases, leb→le, le→leb, inl, inr, All,
}
use octora.SolanaTx.Fees.{insert_sorted, sort_numbers, at_or_zero, quartile_index, p75}

-- The samples that are at most this fee.
unfoldable pub count_within : ℕ → List ℕ → ℕ
count_within fee [] = 0
count_within fee (x ∷ xs) = let n = count_within fee xs in if leb x fee then suc n else n

-- The samples that are at least this fee.
unfoldable pub count_from : ℕ → List ℕ → ℕ
count_from fee [] = 0
count_from fee (x ∷ xs) = let n = count_from fee xs in if leb fee x then suc n else n

abbrev pub IsSorted : List ℕ → Type 0
IsSorted [] = Unit {0}
IsSorted (x ∷ xs) = All (λ y. x ≤ y) xs × IsSorted xs

insert_sorted-counts :
    (fee x : ℕ) (xs : List ℕ)
    → (count_within fee (insert_sorted x xs) ≡ count_within fee (x ∷ xs))
      × (count_from fee (insert_sorted x xs) ≡ count_from fee (x ∷ xs))
      × (length (insert_sorted x xs) ≡ suc (length xs))
unfolding insert_sorted count_within count_from
insert_sorted-counts fee x [] = (refl, refl, refl)
insert_sorted-counts fee x (y ∷ ys) = ground (arith, insert_sorted-counts fee x ys)

sort_numbers-counts :
    (fee : ℕ) (xs : List ℕ)
    → (count_within fee (sort_numbers xs) ≡ count_within fee xs)
      × (count_from fee (sort_numbers xs) ≡ count_from fee xs)
      × (length (sort_numbers xs) ≡ length xs)
unfolding sort_numbers count_within count_from
sort_numbers-counts fee [] = (refl, refl, refl)
sort_numbers-counts fee (x ∷ xs) =
    ground (arith, insert_sorted-counts fee x (sort_numbers xs), sort_numbers-counts fee xs)

All-insert_sorted :
    (z x : ℕ) (xs : List ℕ) → z ≤ x → All (λ y. z ≤ y) xs → All (λ y. z ≤ y) (insert_sorted x xs)
unfolding insert_sorted
All-insert_sorted z x [] l h = (l, tt)
All-insert_sorted z x (y ∷ ys) l h = elim (Bool-cases (leb x y)) [
  | inl e ↦ rw e (l, h)
  | inr e ↦ rw e (h.0, All-insert_sorted z x ys l h.1)
]

All-above : (z x : ℕ) (xs : List ℕ) → z ≤ x → All (λ y. x ≤ y) xs → All (λ y. z ≤ y) xs
All-above z x [] l h = tt
All-above z x (y ∷ ys) l h = (omega (arith, l, h.0), All-above z x ys l h.1)

insert_sorted-IsSorted : (x : ℕ) (xs : List ℕ) → IsSorted xs → IsSorted (insert_sorted x xs)
unfolding insert_sorted
insert_sorted-IsSorted x [] h = (tt, tt)
insert_sorted-IsSorted x (y ∷ ys) h = elim (Bool-cases (leb x y)) [
  | inl e ↦ rw e ((leb→le x y e, All-above x y ys (leb→le x y e) h.0), h)
  | inr e ↦ rw e (All-insert_sorted y x ys (ground (arith, e)) h.0, insert_sorted-IsSorted x ys h.1)
]

sort_numbers-IsSorted : (xs : List ℕ) → IsSorted (sort_numbers xs)
unfolding sort_numbers
sort_numbers-IsSorted [] = tt
sort_numbers-IsSorted (x ∷ xs) =
    insert_sorted-IsSorted x (sort_numbers xs) (sort_numbers-IsSorted xs)

at_or_zero-above :
    (z : ℕ) (xs : List ℕ) (i : ℕ) → i < length xs → All (λ y. z ≤ y) xs → z ≤ at_or_zero xs i
at_or_zero-above z [] i l h = absurd (omega (arith, l))
at_or_zero-above z (x ∷ xs) zero l h = h.0
at_or_zero-above z (x ∷ xs) (suc i) l h = at_or_zero-above z xs i (omega (arith, l)) h.1

count_from-All : (fee : ℕ) (xs : List ℕ) → All (λ y. fee ≤ y) xs → count_from fee xs ≡ length xs
unfolding count_from
count_from-All fee [] h = refl
count_from-All fee (x ∷ xs) h = ground (arith, count_from-All fee xs h.1, h.0, le→leb fee x)

-- In a sorted list the numbers up to a place are at most the one that stands there, the others at least.
at_or_zero-counts :
    (xs : List ℕ) (i : ℕ)
    → IsSorted xs
    → i < length xs
    → (suc i ≤ count_within (at_or_zero xs i) xs)
      × (length xs ≤ i + count_from (at_or_zero xs i) xs)
unfolding count_within count_from
at_or_zero-counts [] i h l = absurd (omega (arith, l))
at_or_zero-counts (x ∷ xs) zero h l = (ground arith, ground (arith, count_from-All x xs h.0))
at_or_zero-counts (x ∷ xs) (suc i) h l = ground (
  arith,
  at_or_zero-counts xs i h.1 (omega (arith, l)),
  at_or_zero-above x xs i (omega (arith, l)) h.0,
)

-- Of samples that are not empty, at least three quarters are at most `p75`, and more than a quarter are
-- at least that much.
pub p75-quartile :
    (x : ℕ) (xs : List ℕ)
    → (3 * length (x ∷ xs) ≤ 4 * count_within (p75 (x ∷ xs)) (x ∷ xs))
      × (length (x ∷ xs) < 4 * count_from (p75 (x ∷ xs)) (x ∷ xs))
unfolding p75
p75-quartile x xs =
    let sorted = sort_numbers (x ∷ xs) in
    let i = quartile_index (length sorted) in
    let same = sort_numbers-counts (at_or_zero sorted i) (x ∷ xs) in
    let counts =
      at_or_zero-counts sorted i (sort_numbers-IsSorted (x ∷ xs)) (omega (arith, same.2)) in
    (omega (arith, same, counts), omega (arith, same, counts))
