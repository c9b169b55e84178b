-- ===== src/Base/Table.antt =====
-- `Map<string, V>`: an association list in insertion order; `set` on a key that is there keeps its place.
use Prim.Native.String.{String}
use mathlib.Core.Path.{◌≡◌, refl, subst}
use mathlib.Core.Logic.{◌≢◌, inl, inr}
use mathlib.Core.Bool.{false}
use mathlib.Core.List.{List, [], ◌∷◌, map}
use mathlib.Core.Option.{Option, none, some}
use native.Mathlib.Omega.{arith}
use text.Mathlib.TextEquality.{eq_iff}
use text.Mathlib.TextPositions.{eq_refl}
use octora.Base.Tests.{if◌then◌else◌, Bool-cases}
use octora.Base.Texts.{◌===◌}
use octora.Base.Lists.{All}

module _ {ℓ} {V : Type ℓ} where
  -- `map.get(key)`
  unfoldable pub lookup : String → List (String × V) → Option V
  lookup key [] = none
  lookup key (entry ∷ rest) = if entry.0 === key then some entry.1 else lookup key rest

  -- `map.delete(key)`
  unfoldable pub erase : String → List (String × V) → List (String × V)
  erase key [] = []
  erase key (entry ∷ rest) =
      let later = erase key rest in if entry.0 === key then later else entry ∷ later

  -- `map.set(key, value)`
  unfoldable pub insert : String → V → List (String × V) → List (String × V)
  insert key value [] = (key, value) ∷ []
  insert key value (entry ∷ rest) =
      let later = insert key value rest in
      if entry.0 === key then (key, value) ∷ rest else entry ∷ later

  pub lookup-insert :
      (key at : String) (value : V) (entries : List (String × V))
      → lookup at (insert key value entries)
        ≡ (if key === at then some value else lookup at entries)
  unfolding lookup insert
  lookup-insert key at value [] = refl
  lookup-insert key at value (entry ∷ rest) =
      let later = lookup-insert key at value rest in
      ground (later, eq_iff entry.0 at, eq_iff key at, eq_iff entry.0 key, arith)

  pub lookup-insert_self :
      (key : String) (value : V) (entries : List (String × V))
      → lookup key (insert key value entries) ≡ some value
  lookup-insert_self key value entries = rw (lookup-insert key key value entries, eq_refl key) refl

  pub lookup-insert_ne :
      (k j : String) (v : V) (m : List (String × V)) → k ≢ j → lookup j (insert k v m) ≡ lookup j m
  lookup-insert_ne k j v m h = ground (arith, lookup-insert k j v m, eq_iff k j)

  pub lookup-erase :
      (k j : String) (m : List (String × V))
      → lookup j (erase k m) ≡ (if k === j then none else lookup j m)
  unfolding lookup erase
  lookup-erase k j [] = ground arith
  lookup-erase k j ((i, w) ∷ m) =
      ground (arith, eq_iff k j, eq_iff i k, eq_iff i j, lookup-erase k j m)

  pub lookup-erase_self : (k : String) (m : List (String × V)) → lookup k (erase k m) ≡ none
  lookup-erase_self k m = simp (lookup-erase, eq_refl)

  -- `map.values()`
  abbrev pub values : List (String × V) → List V
  values = map (λ p. p.1)

  pub All-values-insert {κ} :
      (P : V → Type κ) (k : String) (v : V) (m : List (String × V))
      → P v
      → All P (values m)
      → All P (values (insert k v m))
  unfolding insert
  All-values-insert P k v [] p h = (p, tt)
  All-values-insert P k v ((j, w) ∷ m) p h = ground (arith, All-values-insert P k v m p h.1)

  pub All-values-lookup {κ} :
      (P : V → Type κ) (k : String) (v : V) (m : List (String × V))
      → All P (values m)
      → lookup k m ≡ some v
      → P v
  unfolding lookup
  All-values-lookup P k v [] h e = cc
  All-values-lookup P k v ((j, w) ∷ m) h e = elim (Bool-cases (j === k)) [
    | inl hit ↦ subst P (ground arith) h.0
    | inr miss ↦ All-values-lookup P k v m h.1 (ground arith)
  ]

  -- No key stands twice.
  abbrev pub Apart : String → List (String × V) → Type 0
  Apart k [] = Unit {0}
  Apart k ((j, v) ∷ m) = ((k === j) ≡ false) × Apart k m

  abbrev pub Unique : List (String × V) → Type 0
  Unique [] = Unit {0}
  Unique ((k, v) ∷ m) = Apart k m × Unique m

  Apart-insert :
      (k j : String) (v : V) (m : List (String × V))
      → (k === j) ≡ false
      → Apart k m
      → Apart k (insert j v m)
  unfolding insert
  Apart-insert k j v [] h a = (h, tt)
  Apart-insert k j v ((i, w) ∷ m) h a = ground (arith, Apart-insert k j v m h a.1, a.0)

  pub insert-Unique :
      (k : String) (v : V) (m : List (String × V)) → Unique m → Unique (insert k v m)
  unfolding insert
  insert-Unique k v [] u = (tt, tt)
  insert-Unique k v ((j, w) ∷ m) (a, u) = elim (Bool-cases (j === k)) [
    | inl h ↦ rw h (subst (λ x. Apart x m × Unique m) ((eq_iff j k).0 h) (a, u))
    | inr h ↦ rw h (Apart-insert j k v m h a, insert-Unique k v m u)
  ]

  pub lookup-Apart : (k : String) (m : List (String × V)) → Apart k m → lookup k m ≡ none
  unfolding lookup
  lookup-Apart k [] a = refl
  lookup-Apart k ((j, v) ∷ m) a = ground (arith, lookup-Apart k m a.1, eq_iff k j, eq_iff j k, a.0)

  -- What holds of every value that a key finds holds of every value.
  pub All-values_of_lookup {κ} :
      (P : V → Type κ) (m : List (String × V))
      → Unique m
      → ((k : String) (v : V) → lookup k m ≡ some v → P v)
      → All P (values m)
  unfolding lookup
  All-values_of_lookup P [] u h = tt
  All-values_of_lookup P ((j, w) ∷ m) (a, u) h = (
    h j w (rw (eq_refl j) refl),
    All-values_of_lookup P m u (λ k v e. h k v (ground (arith, eq_iff j k, lookup-Apart j m a, e))),
  )
