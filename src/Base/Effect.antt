-- ===== src/Base/Effect.antt =====
-- Asynchronous code that changes a state and may throw: what was written before a throw stays
-- written, so the state comes back beside the error too.
use mathlib.Core.Path.{◌≡◌, refl}
use mathlib.Core.Logic.{◌⊎◌, inl, inr}
use mathlib.Core.Bool.{Bool, true, false}
use mathlib.Core.Option.{Option, none, some}

pub data Result {ℓ} (E A : Type ℓ) : Type ℓ where
  ok : A → Result E A
  err : E → Result E A

pub Result-cases {ℓ} :
    {E A : Type ℓ} (r : Result E A) → ((a : A) × (r ≡ ok a)) ⊎ ((e : E) × (r ≡ err e))
Result-cases (ok a) = inl (a, refl)
Result-cases (err e) = inr (e, refl)

-- State `S`, errors `E`.
abbrev pub Effect : Type 0 → Type 0 → Type 0 → Type 0
Effect S E A = S → Result E A × S

module _ {S E A : Type 0} where
  unfoldable pub pure : A → Effect S E A
  pure a s = (ok a, s)

  unfoldable pub throw : E → Effect S E A
  throw e s = (err e, s)

  unfoldable pub lift : Result E A → Effect S E A
  lift r s = (r, s)

  -- `if (!found) throw e`
  unfoldable pub or_throw : Option A → E → Effect S E A
  or_throw none e s = (err e, s)
  or_throw (some a) e s = (ok a, s)

module _ {S E : Type 0} where
  -- `if (!test) throw e`
  unfoldable pub guard : Bool → E → Effect S E (Unit {0})
  guard true e s = (ok tt, s)
  guard false e s = (err e, s)

module _ {S E A B : Type 0} where
  abbrev pub resume : Result E A → (A → Effect S E B) → Effect S E B
  resume (ok a) f s = f a s
  resume (err e) f s = (err e, s)

  infixl 5 ◌>>=◌ ◌>>◌
  -- To open this opens the other ways to build an effect too.
  unfoldable pub ◌>>=◌ : Effect S E A → (A → Effect S E B) → Effect S E B
  unfolding pure throw lift or_throw guard
  ◌>>=◌ m f s = let (r, s') = m s in resume r f s'

  abbrev pub ◌>>◌ : Effect S E A → Effect S E B → Effect S E B
  m >> k = m >>= λ _. k

  -- `let x; try { x = call } catch (error) { return handler(error) }` and what follows.
  unfoldable pub attempt : Result E A → (E → Effect S E B) → (A → Effect S E B) → Effect S E B
  attempt (ok a) handler rest = rest a
  attempt (err e) handler rest = handler e
