-- ===== src/Relayer/Bytes/Hex.antt =====
-- `bigintToBeBytes` of octora-api/src/modules/relayer/proof-converter.ts and of the browser.
use octora.Base.{
  ◌⊎◌, ℕ, zero, suc, ◌+◌, ◌-◌, ◌*◌, ◌/◌, ◌%◌, ◌^◌, ◌≤◌, ◌<◌, ◌≡◌, refl, sym, ap, ◌∙◌, List, [], ◌∷◌,
  ◌++◌, arith, length, length-append, ltb, ltb→lt, lt→ltb, Bool-cases, inl, inr, All, All-append,
}
use native.Mathlib.Nat.{pow-suc}
use octora.Base.Integers.{ℤ, pos, negsuc}
use octora.Base.Effect.{Result, ok}
use octora.Relayer.Bytes.{
  ByteError, HexChar, digit, minus, hex_digits, zero_digits, pad_start, from_hex, two_pow_256,
  bigint_to_be_bytes, parse_pairs, web_bigint_to_be_bytes,
}

-- The number that digits stand for, after a number that has been read.
abbrev read_hex : ℕ → List HexChar → ℕ
read_hex acc [] = acc
read_hex acc (digit d ∷ text) = read_hex (acc * 16 + d) text
read_hex acc (minus ∷ text) = read_hex acc text

-- The number that bytes stand for, the most significant one first.
abbrev pub read_be : ℕ → List ℕ → ℕ
read_be acc [] = acc
read_be acc (b ∷ bytes) = read_be (acc * 256 + b) bytes

abbrev IsDigit : HexChar → Type 0
IsDigit (digit d) = d < 16
IsDigit minus = ⊥

read_hex-append :
    (acc : ℕ) (xs ys : List HexChar) → read_hex acc (xs ++ ys) ≡ read_hex (read_hex acc xs) ys
read_hex-append acc [] ys = refl
read_hex-append acc (digit d ∷ xs) ys = read_hex-append (acc * 16 + d) xs ys
read_hex-append acc (minus ∷ xs) ys = read_hex-append acc xs ys

hex_digits-cases :
    (fuel n : ℕ)
    → ((n < 16) × (hex_digits (suc fuel) n ≡ digit n ∷ []))
      ⊎ ((16 ≤ n) × (hex_digits (suc fuel) n ≡ hex_digits fuel (n / 16) ++ digit (n % 16) ∷ []))
unfolding hex_digits
hex_digits-cases fuel n = elim (Bool-cases (ltb n 16)) [
  | inl e ↦ inl (ltb→lt n 16 e, rw (hex_digits, e) refl)
  | inr e ↦ inr (ground (arith, e), rw (hex_digits, e) refl)
]

read_hex-hex_digits : (fuel n : ℕ) → read_hex 0 (hex_digits fuel n) ≡ n
unfolding hex_digits
read_hex-hex_digits zero n = omega arith
read_hex-hex_digits (suc fuel) n = elim (hex_digits-cases fuel n) [
  | inl (l, e) ↦ rw e (omega arith)
  | inr (l, e) ↦ rw e (
      omega (
        arith,
        read_hex-append 0 (hex_digits fuel (n / 16)) (digit (n % 16) ∷ []),
        read_hex-hex_digits fuel (n / 16),
      ))
]

hex_digits-IsDigit : (fuel n : ℕ) → n ≤ fuel → All IsDigit (hex_digits fuel n)
unfolding hex_digits
hex_digits-IsDigit zero n h = (omega (arith, h), tt)
hex_digits-IsDigit (suc fuel) n h = elim (hex_digits-cases fuel n) [
  | inl (l, e) ↦ rw e (l, tt)
  | inr (l, e) ↦ rw e (
      All-append IsDigit (hex_digits fuel (n / 16)) (digit (n % 16) ∷ [])
        (hex_digits-IsDigit fuel (n / 16) (omega (arith, l, h))) (omega arith, tt))
]

length-hex_digits :
    (width fuel n : ℕ) → n ≤ fuel → n < 16 ^ suc width → length (hex_digits fuel n) ≤ suc width
unfolding hex_digits
length-hex_digits width zero n h l = omega arith
length-hex_digits zero (suc fuel) n h l = elim (hex_digits-cases fuel n) [
  | inl (s, e) ↦ rw e (omega arith)
  | inr (s, e) ↦ absurd (omega (arith, s, l))
]
length-hex_digits (suc width) (suc fuel) n h l = elim (hex_digits-cases fuel n) [
  | inl (s, e) ↦ rw e (omega arith)
  | inr (s, e) ↦ rw e (
      omega (
        arith,
        length-append (hex_digits fuel (n / 16)) (digit (n % 16) ∷ []),
        length-hex_digits width fuel (n / 16) (omega (arith, s, h))
            (omega (arith, l, pow-suc 16 (suc width))),
      ))
]

read_hex-zero_digits :
    (n : ℕ) (text : List HexChar) → read_hex 0 (zero_digits n ++ text) ≡ read_hex 0 text
read_hex-zero_digits zero text = refl
read_hex-zero_digits (suc n) text = read_hex-zero_digits n text

zero_digits-IsDigit : (n : ℕ) → All IsDigit (zero_digits n) × (length (zero_digits n) ≡ n)
zero_digits-IsDigit zero = (tt, refl)
zero_digits-IsDigit (suc n) =
    ((omega arith, (zero_digits-IsDigit n).0), omega (arith, zero_digits-IsDigit n))

-- Pairs of digits: the two packers give the same bytes, which stand for the same number.
pairs :
    (n acc : ℕ) (text : List HexChar)
    → All IsDigit text
    → length text ≡ n + n
    → (length (from_hex text) ≡ n)
      × (read_be acc (from_hex text) ≡ read_hex acc text)
      × (parse_pairs n text ≡ from_hex text)
unfolding from_hex parse_pairs
pairs zero acc [] d h = (refl, refl, refl)
pairs zero acc (c ∷ text) d h = absurd (omega (arith, h))
pairs (suc n) acc [] d h = absurd (omega (arith, h))
pairs (suc n) acc (c ∷ []) d h = absurd (omega (arith, h))
pairs (suc n) acc (minus ∷ b ∷ text) d h = absurd d.0
pairs (suc n) acc (digit a ∷ minus ∷ text) d h = absurd d.1.0
pairs (suc n) acc (digit a ∷ digit b ∷ text) d h =
    let (l, r, w) = pairs n (acc * 256 + (a * 16 + b)) text d.1.1 (omega (arith, h)) in
    (
      omega (arith, l),
      r
          ∙ ap (λ x. read_hex x text) {x = acc * 256 + (a * 16 + b)} {y = (acc * 16 + a) * 16 + b}
              (omega arith),
      ap (λ x. (a * 16 + b) ∷ x) w,
    )

padded :
    (n : ℕ)
    → n < two_pow_256
    → All IsDigit (pad_start 64 (hex_digits n n))
      × (length (pad_start 64 (hex_digits n n)) ≡ 32 + 32)
      × (read_hex 0 (pad_start 64 (hex_digits n n)) ≡ n)
padded n l =
    let text = hex_digits n n in
    let short = length-hex_digits 63 n n (omega arith) (omega (arith, l)) in
    let zeros = zero_digits-IsDigit (64 - length text) in
    (
      All-append IsDigit (zero_digits (64 - length text)) text zeros.0
          (hex_digits-IsDigit n n (omega arith)),
      omega (arith, zeros.1, short, length-append (zero_digits (64 - length text)) text),
      read_hex-zero_digits (64 - length text) text ∙ read_hex-hex_digits n n,
    )

-- A number below 2 to the 256 is packed into 32 bytes that stand for it, the most significant one first,
-- and the browser packs it into the same bytes.
pub bigint_to_be_bytes-reads :
    (n : ℕ)
    → n < two_pow_256
    → (bytes : List ℕ) × (bigint_to_be_bytes (pos n) ≡ ok bytes)
      × (length bytes ≡ 32)
      × (read_be 0 bytes ≡ n)
      × (web_bigint_to_be_bytes (pos n) ≡ bytes)
unfolding bigint_to_be_bytes web_bigint_to_be_bytes
bigint_to_be_bytes-reads n l =
    let (d, e, r) = padded n l in
    let (k, s, w) = pairs 32 0 (pad_start 64 (hex_digits n n)) d e in
    (from_hex (pad_start 64 (hex_digits n n)), rw (lt→ltb n two_pow_256 l) refl, k, s ∙ r, w)

ok_unique : (r : Result ByteError (List ℕ)) {xs ys : List ℕ} → r ≡ ok xs → r ≡ ok ys → xs ≡ ys
ok_unique r h k = cc

-- What is packed at all is such a number.
pub bigint_to_be_bytes-fits :
    (value : ℤ) (bytes : List ℕ)
    → bigint_to_be_bytes value ≡ ok bytes
    → (n : ℕ) × (value ≡ pos n) × (length bytes ≡ 32) × (read_be 0 bytes ≡ n)
unfolding bigint_to_be_bytes
bigint_to_be_bytes-fits (negsuc n) bytes h = absurd (ground (arith, h))
bigint_to_be_bytes-fits (pos n) bytes h = elim (Bool-cases (ltb n two_pow_256)) [
  | inl e ↦
      let (packed, p, k, s, w) = bigint_to_be_bytes-reads n (ltb→lt n two_pow_256 e) in
      let same = ok_unique _ p h in
      (n, refl, ap length (sym same) ∙ k, ap (read_be 0) (sym same) ∙ s)
  | inr e ↦ absurd (ground (arith, e, h))
]
