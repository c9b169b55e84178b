-- ===== src/Relayer/Bytes/Fills.antt =====
-- How the writes of octora-api/src/modules/relayer/proof-converter.ts fill free slots of 32 bytes.
use octora.Base.{
  ◌⊎◌, ◌<◌, All, ℕ, suc, ◌+◌, ◌*◌, ◌≡◌, refl, sym, ap, ◌∙◌, Option, none, some, List, [], ◌∷◌, ◌++◌,
  arith, length, length-append, inl, inr, subst,
}
use mathlib.Core.List.{append_assoc}
use octora.Base.Integers.{ℤ, pos, negsuc}
use octora.Base.Effect.{Result-cases, pure, ◌>>◌, ok, err, ◌>>=◌}
use octora.Relayer.Bytes.{
  two_pow_256, ByteError, not_a_number, Writer, bigint_to_be_bytes, overwrite, copy_at, alloc,
  write_at, write_signals,
}
use octora.Relayer.Bytes.Hex.{read_be, bigint_to_be_bytes-fits, bigint_to_be_bytes-reads}

-- The bytes are slots of 32, one for each value, and each stands for its value.
abbrev pub Holds : List (Option ℤ) → List ℕ → Type 0
Holds [] bytes = bytes ≡ []
Holds (value ∷ values) bytes =
    (n : ℕ) × (slot : List ℕ) × (rest : List ℕ) × (value ≡ some (pos n))
    × (length slot ≡ 32)
    × (read_be 0 slot ≡ n)
    × (bytes ≡ slot ++ rest)
    × Holds values rest

-- A number that 32 bytes can hold.
abbrev pub IsFit : Option ℤ → Type 0
IsFit none = ⊥
IsFit (some (negsuc n)) = ⊥
IsFit (some (pos n)) = n < two_pow_256

overwrite-alloc :
    (bytes : List ℕ) (n : ℕ) → overwrite bytes (alloc (length bytes + n)) ≡ bytes ++ alloc n
overwrite-alloc [] n = ap alloc {x = 0 + n} {y = n} (omega arith)
overwrite-alloc (b ∷ bytes) n =
    ap (λ k. overwrite (b ∷ bytes) (alloc k)) {x = suc (length bytes) + n}
      {y = suc (length bytes + n)} (omega arith)
    ∙ ap (λ xs. b ∷ xs) (overwrite-alloc bytes n)

copy_at-past :
    (before bytes buf : List ℕ)
    → copy_at (length before) bytes (before ++ buf) ≡ before ++ overwrite bytes buf
unfolding copy_at
copy_at-past [] bytes buf = refl
copy_at-past (x ∷ before) bytes buf = ap (λ xs. x ∷ xs) (copy_at-past before bytes buf)

-- Bytes that are copied to the end of what is written take their room of the rest.
pub copied :
    (before slot : List ℕ) (offset width room : ℕ)
    → offset ≡ length before
    → length slot ≡ width
    → copy_at offset slot (before ++ alloc (width + room)) ≡ before ++ (slot ++ alloc room)
copied before slot offset width room h k =
    ap (λ i. copy_at i slot (before ++ alloc (width + room))) h
    ∙ copy_at-past before slot (alloc (width + room))
    ∙ ap (λ i. before ++ overwrite slot (alloc (i + room))) (sym k)
    ∙ ap (λ xs. before ++ xs) (overwrite-alloc slot room)

unfit : (v : ℤ) (e : ByteError) → bigint_to_be_bytes v ≡ err e → IsFit (some v) → ⊥
unfit (negsuc n) e p fit = fit
unfit (pos n) e p fit = let r = bigint_to_be_bytes-reads n fit in absurd (ground (arith, p, r.1))

-- Where a slot is free, a number is written into it or an error is thrown.
write_at-free :
    (before : List ℕ) (offset room : ℕ) (value : Option ℤ)
    → offset ≡ length before
    → ((e : ByteError) × ((write_at offset value (before ++ alloc (32 + room))).0 ≡ err e)
        × (IsFit value → ⊥))
      ⊎ ((n : ℕ) × (slot : List ℕ) × (value ≡ some (pos n))
          × (length slot ≡ 32)
          × (read_be 0 slot ≡ n)
          × (write_at offset value (before ++ alloc (32 + room))
              ≡ (ok tt, before ++ (slot ++ alloc room))))
unfolding write_at ◌>>=◌
write_at-free before offset room none h = inl (not_a_number, refl, λ fit. fit)
write_at-free before offset room (some v) h = elim (Result-cases (bigint_to_be_bytes v)) [
  | inr (e, p) ↦ inl (e, rw p refl, unfit v e p)
  | inl (slot, p) ↦
      let (n, q, k, r) = bigint_to_be_bytes-fits v slot p in
      inr (
        n,
        slot,
        ap some q,
        k,
        r,
        rw p (ap (λ buf. (ok tt, buf)) (copied before slot offset 32 room h k)),
      )
]

-- The writer fills free slots from this offset on with the values, or throws.
abbrev pub Fills : Writer → ℕ → List (Option ℤ) → Type 0
Fills writer offset values =
    (before : List ℕ) (room : ℕ)
    → offset ≡ length before
    → ((e : ByteError) × ((writer (before ++ alloc (32 * length values + room))).0 ≡ err e)
        × (All IsFit values → ⊥))
      ⊎ ((bytes : List ℕ) × Holds values bytes
          × (writer (before ++ alloc (32 * length values + room))
              ≡ (ok tt, before ++ (bytes ++ alloc room))))

-- A list without elements before the free slots, and none after them.
Fills-nothing : (offset : ℕ) → Fills (pure tt) offset []
unfolding pure
Fills-nothing offset before room h =
    inr
      ([], refl, ap (λ k. (ok tt, before ++ alloc k)) {x = 32 * 0 + room} {y = room} (omega arith))

first_throws :
    (writer after : Writer) (buf : List ℕ) (e : ByteError)
    → (writer buf).0 ≡ err e
    → ((writer >> after) buf).0 ≡ err e
unfolding ◌>>=◌
first_throws writer after buf e h = rw h refl

first_writes :
    (writer after : Writer) (buf later : List ℕ)
    → writer buf ≡ (ok tt, later)
    → (writer >> after) buf ≡ after later
unfolding ◌>>=◌
first_writes writer after buf later h = rw h refl

pub append_nil : (xs : List ℕ) → xs ++ [] ≡ xs
append_nil [] = refl
append_nil (x ∷ xs) = ap (λ ys. x ∷ ys) (append_nil xs)

more_room : (n room : ℕ) → 32 + (32 * n + room) ≡ 32 * suc n + room
more_room n room = omega arith

regroup :
    (before slot bytes rest : List ℕ)
    → (before ++ slot) ++ (bytes ++ rest) ≡ before ++ ((slot ++ bytes) ++ rest)
regroup before slot bytes rest =
    append_assoc before slot (bytes ++ rest)
    ∙ ap (λ xs. before ++ xs) (sym (append_assoc slot bytes rest))

pub Fills-next :
    (writer : Writer) (offset : ℕ) (value : Option ℤ) (values : List (Option ℤ))
    → Fills writer (offset + 32) values
    → Fills (write_at offset value >> writer) offset (value ∷ values)
unfolding ◌>>=◌
Fills-next writer offset value values later before room h =
    subst
      (λ k.
        ((e : ByteError) × (((write_at offset value >> writer) (before ++ alloc k)).0 ≡ err e)
          × (All IsFit (value ∷ values) → ⊥))
        ⊎ ((bytes : List ℕ) × Holds (value ∷ values) bytes
            × ((write_at offset value >> writer) (before ++ alloc k)
                ≡ (ok tt, before ++ (bytes ++ alloc room)))))
      (more_room (length values) room)
      (elim (write_at-free before offset (32 * length values + room) value h) [
        | inl (e, p, f) ↦
            inl (e, first_throws (write_at offset value) writer _ e p, λ fits. f fits.0)
        | inr (n, slot, v, k, r, p) ↦
            let free = alloc (32 * length values + room) in
            let step =
              first_writes (write_at offset value) writer _ _ p
              ∙ ap writer (sym (append_assoc before slot free)) in
            elim (later (before ++ slot) room (omega (arith, h, k, length-append before slot))) [
              | inl (e, q, f) ↦ inl (e, ap (λ r. r.0) step ∙ q, λ fits. f fits.1)
              | inr (bytes, holds, q) ↦ inr (
                slot ++ bytes,
                (n, slot, bytes, v, k, r, refl, holds),
                step ∙ q ∙ ap (λ buf. (ok tt, buf)) (regroup before slot bytes (alloc room)),
              )
            ]
      ])

pub Fills-last : (offset : ℕ) (value : Option ℤ) → Fills (write_at offset value) offset (value ∷ [])
Fills-last offset value before room h = elim (write_at-free before offset room value h) [
  | inl (e, p, f) ↦ inl (e, p, λ fits. f fits.0)
  | inr (n, slot, v, k, r, p) ↦ inr (slot, (n, slot, [], v, k, r, sym (append_nil slot), refl), p)
]

pub Fills-signals :
    (i : ℕ) (values : List (Option ℤ)) → Fills (write_signals i values) (i * 32) values
unfolding write_signals
Fills-signals i [] = Fills-nothing (i * 32)
Fills-signals i (value ∷ values) = Fills-next (write_signals (suc i) values) (i * 32) value values (
    subst (λ k. Fills (write_signals (suc i) values) k values) {x = suc i * 32} (omega arith)
      (Fills-signals (suc i) values))
