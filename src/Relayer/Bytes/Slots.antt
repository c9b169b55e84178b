-- ===== src/Relayer/Bytes/Slots.antt =====
-- The slots of 32 bytes that octora-api/src/modules/relayer/proof-converter.ts gives to the program.
use octora.Base.{
  All, ℕ, ◌+◌, ◌*◌, ◌≡◌, refl, ap, ◌∙◌, String, Option, List, [], ◌∷◌, arith, length, length-append,
  inl, inr,
}
use octora.Base.Integers.{ℤ}
use octora.Base.Effect.{◌>>◌, ok}
use octora.Relayer.Bytes.{
  Writer, alloc, write_at, write_signals, finished, Groth16Proof, negated, numbers_of, write_proof,
  convert_proof_to_bytes, convert_public_inputs_to_bytes,
}
use octora.Relayer.Bytes.Fills.{
  Holds, IsFit, Fills, Fills-next, Fills-last, Fills-signals, append_nil,
}

length-Holds :
    (values : List (Option ℤ)) (bytes : List ℕ)
    → Holds values bytes
    → length bytes ≡ 32 * length values
length-Holds [] bytes h = ap length h
length-Holds (value ∷ values) bytes (n, slot, rest, v, k, r, e, holds) =
    ap length e ∙ omega (arith, length-append slot rest, k, length-Holds values rest holds)

-- A writer that fills a buffer of just this size succeeds on numbers that fit.
finished-Holds :
    (writer : Writer) (values : List (Option ℤ))
    → Fills writer 0 values
    → All IsFit values
    → (bytes : List ℕ) × (finished (writer (alloc (32 * length values + 0))) ≡ ok bytes)
      × Holds values bytes
finished-Holds writer values fills fits = elim (fills [] 0 refl) [
  | inl (e, q, f) ↦ absurd (f fits)
  | inr (bytes, holds, q) ↦ (bytes, ap finished q ∙ ap ok (append_nil bytes), holds)
]

length-numbers_of :
    (big_int : String → Option ℤ) (signals : List String)
    → length (numbers_of big_int signals) ≡ length signals
length-numbers_of big_int [] = refl
length-numbers_of big_int (s ∷ signals) = omega (arith, length-numbers_of big_int signals)

-- Eight numbers at the offsets of the layout.
Fills-eight :
    (a b c d e f g h : Option ℤ)
    → Fills
        (write_at 0 a
          >> (write_at 32 b
              >> (write_at 64 c
                  >> (write_at 96 d
                      >> (write_at 128 e
                          >> (write_at 160 f >> (write_at 192 g >> (write_at 224 h))))))))
        0
        (a ∷ b ∷ c ∷ d ∷ e ∷ f ∷ g ∷ h ∷ [])
Fills-eight a b c d e f g h =
    let w7 = write_at 224 h in
    let w6 = write_at 192 g >> w7 in
    let w5 = write_at 160 f >> w6 in
    let w4 = write_at 128 e >> w5 in
    let w3 = write_at 96 d >> w4 in
    let w2 = write_at 64 c >> w3 in
    let w1 = write_at 32 b >> w2 in
    let f7 = Fills-last 224 h in
    let f6 = Fills-next w7 192 g (h ∷ []) f7 in
    let f5 = Fills-next w6 160 f (g ∷ h ∷ []) f6 in
    let f4 = Fills-next w5 128 e (f ∷ g ∷ h ∷ []) f5 in
    let f3 = Fills-next w4 96 d (e ∷ f ∷ g ∷ h ∷ []) f4 in
    let f2 = Fills-next w3 64 c (d ∷ e ∷ f ∷ g ∷ h ∷ []) f3 in
    let f1 = Fills-next w2 32 b (c ∷ d ∷ e ∷ f ∷ g ∷ h ∷ []) f2 in
    Fills-next w1 0 a (b ∷ c ∷ d ∷ e ∷ f ∷ g ∷ h ∷ []) f1

module _ (big_int : String → Option ℤ) where
  -- Five signals that are numbers below 2 to the 256 are packed into 160 bytes: a slot of 32 for each, in
  -- their order, that stands for its number.
  pub convert_public_inputs_to_bytes-Holds :
      (signals : List String)
      → length signals ≡ 5
      → All IsFit (numbers_of big_int signals)
      → (bytes : List ℕ) × (convert_public_inputs_to_bytes big_int signals ≡ ok bytes)
        × (length bytes ≡ 160)
        × Holds (numbers_of big_int signals) bytes
  unfolding convert_public_inputs_to_bytes
  convert_public_inputs_to_bytes-Holds signals five fits =
      let values = numbers_of big_int signals in
      let (bytes, q, holds) =
        finished-Holds (write_signals 0 values) values (Fills-signals 0 values) fits in
      let size = length-numbers_of big_int signals in
      (
        bytes,
        rw (five) (
            ap (λ k. finished (write_signals 0 values (alloc k))) {x = 160}
              {y = 32 * length values + 0} (omega (arith, size, five))
            ∙ q),
        omega (arith, length-Holds values bytes holds, size, five),
        holds,
      )

  -- The numbers of a proof in the order of its bytes.
  abbrev pub coordinates : Groth16Proof → List (Option ℤ)
  coordinates proof =
      big_int proof.pi_a_x
      ∷ negated (big_int proof.pi_a_y)
      ∷ big_int proof.pi_b_x1
      ∷ big_int proof.pi_b_x0
      ∷ big_int proof.pi_b_y1
      ∷ big_int proof.pi_b_y0
      ∷ big_int proof.pi_c_x
      ∷ big_int proof.pi_c_y
      ∷ []

  Fills-proof : (proof : Groth16Proof) → Fills (write_proof big_int proof) 0 (coordinates proof)
  unfolding write_proof
  Fills-proof proof = Fills-eight _ _ _ _ _ _ _ _

  -- A proof whose coordinates fit, the second one after its negation, is packed into 256 bytes: a slot of 32
  -- for each, in the order of the layout, that stands for its number.
  pub convert_proof_to_bytes-Holds :
      (proof : Groth16Proof)
      → All IsFit (coordinates proof)
      → (bytes : List ℕ) × (convert_proof_to_bytes big_int proof ≡ ok bytes)
        × (length bytes ≡ 256)
        × Holds (coordinates proof) bytes
  unfolding convert_proof_to_bytes
  convert_proof_to_bytes-Holds proof fits =
      let (bytes, q, holds) =
        finished-Holds (write_proof big_int proof) (coordinates proof) (Fills-proof proof) fits in
      (bytes, q, length-Holds (coordinates proof) bytes holds, holds)
