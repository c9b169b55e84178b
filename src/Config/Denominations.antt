-- ===== src/Config/Denominations.antt =====
-- The list of pools that octora-api/src/common/config.ts gives to the browser.
use octora.Base.{
  ◌≡◌, refl, ap, ◌∙◌, inl, inr, String, true, false, ◌||◌, Option, none, some, List, [], ◌∷◌, arith,
  Bool-cases, All, subst, ◌===◌,
}
use octora.Base.Integers.{ℤ, pos, less, same, same→eq}
use octora.Base.Effect.{Result, ok, Result-cases}
use octora.Config.{
  ConfigError, Texts, Env, is_seen, unique_onto, insert_ascending, sort_ascending, entry_value,
  entry_values, trimmed, parts_of, load_mixer_denominations,
}

-- Each number is less than all that follow.
abbrev pub Ascending : List ℤ → Type 0
Ascending [] = Unit {0}
Ascending (x ∷ xs) = All (λ y. less x y ≡ true) xs × Ascending xs

abbrev Distinct : List ℤ → Type 0
Distinct [] = Unit {0}
Distinct (x ∷ xs) = All (λ y. same x y ≡ false) xs × Distinct xs

less_trans : (a b c : ℤ) → less a b ≡ true → less b c ≡ true → less a c ≡ true
less_trans a b c h k = ground (arith, h, k)

less_or : (a b : ℤ) → less b a ≡ false → same a b ≡ false → less a b ≡ true
less_or a b h k = ground (arith, h, k)

All-above :
    (x y : ℤ) (ys : List ℤ)
    → less x y ≡ true
    → All (λ z. less y z ≡ true) ys
    → All (λ z. less x z ≡ true) ys
All-above x y [] l h = tt
All-above x y (z ∷ zs) l h = (less_trans x y z l h.0, All-above x y zs l h.1)

module _ (P : ℤ → Type 0) where
  All-insert_ascending : (x : ℤ) (ys : List ℤ) → P x → All P ys → All P (insert_ascending x ys)
  unfolding insert_ascending
  All-insert_ascending x [] p h = (p, tt)
  All-insert_ascending x (y ∷ ys) p h = elim (Bool-cases (less y x)) [
    | inl e ↦ rw e (h.0, All-insert_ascending x ys p h.1)
    | inr e ↦ rw e (p, h)
  ]

  All-sort_ascending : (xs : List ℤ) → All P xs → All P (sort_ascending xs)
  unfolding sort_ascending
  All-sort_ascending [] h = tt
  All-sort_ascending (x ∷ xs) h =
      All-insert_ascending x (sort_ascending xs) h.0 (All-sort_ascending xs h.1)

  All-unique_onto : (seen xs : List ℤ) → All P xs → All P (unique_onto seen xs)
  unfolding unique_onto
  All-unique_onto seen [] h = tt
  All-unique_onto seen (x ∷ xs) h = elim (Bool-cases (is_seen x seen)) [
    | inl e ↦ rw e (All-unique_onto seen xs h.1)
    | inr e ↦ rw e (h.0, All-unique_onto (x ∷ seen) xs h.1)
  ]

insert_ascending-Ascending :
    (x : ℤ) (ys : List ℤ)
    → All (λ y. same x y ≡ false) ys
    → Ascending ys
    → Ascending (insert_ascending x ys)
unfolding insert_ascending
insert_ascending-Ascending x [] d a = (tt, tt)
insert_ascending-Ascending x (y ∷ ys) d a = elim (Bool-cases (less y x)) [
  | inl e ↦ rw e (
    All-insert_ascending (λ z. less y z ≡ true) x ys e a.0,
    insert_ascending-Ascending x ys d.1 a.1,
  )
  | inr e ↦ let below = less_or x y e d.0 in rw e ((below, All-above x y ys below a.0), a)
]

sort_ascending-Ascending : (xs : List ℤ) → Distinct xs → Ascending (sort_ascending xs)
unfolding sort_ascending
sort_ascending-Ascending [] d = tt
sort_ascending-Ascending (x ∷ xs) d =
    insert_ascending-Ascending x (sort_ascending xs)
      (All-sort_ascending (λ y. same x y ≡ false) xs d.0) (sort_ascending-Ascending xs d.1)

-- What is kept has not been seen.
unseen : (seen xs : List ℤ) → All (λ y. is_seen y seen ≡ false) (unique_onto seen xs)
unfolding unique_onto
unseen seen [] = tt
unseen seen (x ∷ xs) = elim (Bool-cases (is_seen x seen)) [
  | inl e ↦ rw e (unseen seen xs)
  | inr e ↦ rw e (e, All-weaken (unique_onto (x ∷ seen) xs) (unseen (x ∷ seen) xs))
]
  where
    All-weaken :
        (ys : List ℤ)
        → All (λ y. is_seen y (x ∷ seen) ≡ false) ys
        → All (λ y. is_seen y seen ≡ false) ys
    All-weaken [] h = tt
    All-weaken (y ∷ ys) h = (ground (arith, h.0), All-weaken ys h.1)

unique_onto-Distinct : (seen xs : List ℤ) → Distinct (unique_onto seen xs)
unfolding unique_onto
unique_onto-Distinct seen [] = tt
unique_onto-Distinct seen (x ∷ xs) = elim (Bool-cases (is_seen x seen)) [
  | inl e ↦ rw e (unique_onto-Distinct seen xs)
  | inr e ↦
      rw e (
        apart (unique_onto (x ∷ seen) xs) (unseen (x ∷ seen) xs),
        unique_onto-Distinct (x ∷ seen) xs,
      )
]
  where
    apart :
        (ys : List ℤ) → All (λ y. is_seen y (x ∷ seen) ≡ false) ys → All (λ y. same x y ≡ false) ys
    apart [] h = tt
    apart (y ∷ ys) h = (ground (arith, h.0), apart ys h.1)

is_seen-insert_ascending :
    (v x : ℤ) (ys : List ℤ) → is_seen v (insert_ascending x ys) ≡ is_seen v (x ∷ ys)
unfolding insert_ascending
is_seen-insert_ascending v x [] = refl
is_seen-insert_ascending v x (y ∷ ys) = ground (arith, is_seen-insert_ascending v x ys)

is_seen-sort_ascending : (v : ℤ) (xs : List ℤ) → is_seen v (sort_ascending xs) ≡ is_seen v xs
unfolding sort_ascending
is_seen-sort_ascending v [] = refl
is_seen-sort_ascending v (x ∷ xs) =
    is_seen-insert_ascending v x (sort_ascending xs)
    ∙ ap (λ b. same x v || b) (is_seen-sort_ascending v xs)

is_seen-unique_onto :
    (v : ℤ) (seen xs : List ℤ)
    → (is_seen v seen || is_seen v (unique_onto seen xs)) ≡ (is_seen v seen || is_seen v xs)
unfolding unique_onto
is_seen-unique_onto v seen [] = refl
is_seen-unique_onto v seen (x ∷ xs) = elim (Bool-cases (is_seen x seen)) [
  | inl e ↦ elim (Bool-cases (same x v)) [
    | inl s ↦
        let found = subst (λ y. is_seen y seen ≡ true) (same→eq x v s) e in ground (arith, e, found)
    | inr s ↦ ground (arith, e, s, is_seen-unique_onto v seen xs)
  ]
  | inr e ↦ ground (arith, e, is_seen-unique_onto v (x ∷ seen) xs)
]

ok_unique : (r : Result ConfigError (List ℤ)) {xs ys : List ℤ} → r ≡ ok xs → r ≡ ok ys → xs ≡ ys
ok_unique r h k = cc

-- What the list of an environment promises: it ascends, all its numbers are positive, and it has just
-- the numbers of the entries.
abbrev pub IsPools : List ℤ → List ℤ → Type 0
IsPools entries pools =
    Ascending pools
    × All (λ d. less (pos 0) d ≡ true) pools
    × ((v : ℤ) → is_seen v pools ≡ is_seen v entries)

sort_ascending-IsPools :
    (entries : List ℤ)
    → All (λ d. less (pos 0) d ≡ true) entries
    → IsPools entries (sort_ascending (unique_onto [] entries))
sort_ascending-IsPools entries h =
    let kept = unique_onto [] entries in
    (
      sort_ascending-Ascending kept (unique_onto-Distinct [] entries),
      All-sort_ascending (λ d. less (pos 0) d ≡ true) kept
          (All-unique_onto (λ d. less (pos 0) d ≡ true) [] entries h),
      λ v. is_seen-sort_ascending v kept ∙ is_seen-unique_onto v [] entries,
    )

module _ {F : Type 0} (texts : Texts F) where
  open texts use {big_int}

  positive_entry :
      (s : String) (value : Option ℤ) (v : ℤ) → entry_value s value ≡ ok v → less (pos 0) v ≡ true
  positive_entry s none v h = absurd (ground (arith, h))
  positive_entry s (some w) v h = ground (arith, h)

  entry_values-All :
      (parts : List String) (entries : List ℤ)
      → entry_values texts parts ≡ ok entries
      → All (λ d. less (pos 0) d ≡ true) entries
  unfolding entry_values
  entry_values-All [] entries h =
      subst (All (λ d. less (pos 0) d ≡ true)) (ok_unique (entry_values texts []) refl h) tt
  entry_values-All (s ∷ parts) entries h = elim (Result-cases (entry_value s (big_int s))) [
    | inr (x, e) ↦ absurd (ground (arith, e, h))
    | inl (v, e) ↦ elim (Result-cases (entry_values texts parts)) [
      | inr (x, q) ↦ absurd (ground (arith, e, q, h))
      | inl (vs, q) ↦
          subst (All (λ d. less (pos 0) d ≡ true)) {x = v ∷ vs}
            (ok_unique (entry_values texts (s ∷ parts)) (rw (entry_values, e, q) refl) h)
            (positive_entry s (big_int s) v e, entry_values-All parts vs q)
    ]
  ]

  -- Where the variable is set and its entries are positive integers, at least one, the server has
  -- a list of pools that ascends, is positive and has just the numbers of the entries.
  pub load_mixer_denominations-IsPools :
      (env : Env) (x : ℤ) (xs : List ℤ)
      → (trimmed texts (env "MIXER_DENOMINATIONS") === "") ≡ false
      → entry_values texts (parts_of texts (trimmed texts (env "MIXER_DENOMINATIONS")))
        ≡ ok (x ∷ xs)
      → (pools : List ℤ) × (load_mixer_denominations texts env ≡ ok pools) × IsPools (x ∷ xs) pools
  unfolding load_mixer_denominations
  load_mixer_denominations-IsPools env x xs set valid = (
    sort_ascending (unique_onto [] (x ∷ xs)),
    rw (set, valid) refl,
    sort_ascending-IsPools (x ∷ xs) (entry_values-All _ (x ∷ xs) valid),
  )
