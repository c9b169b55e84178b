-- ===== src/SingleSided/Layout.antt =====
-- The bytes of the instruction data that octora-api/src/modules/executor/single-sided.ts writes.
use octora.Base.{
  ℕ, zero, suc, ◌+◌, ◌-◌, ◌*◌, ◌/◌, ◌<◌, ◌≡◌, refl, ap, Option, some, List, [], ◌∷◌, ◌++◌, arith,
  ltb, length, length-append, if◌then◌else◌,
}
use mathlib.Core.List.{append_assoc}
use octora.Relayer.Bytes.{alloc}
use octora.Relayer.Bytes.Fills.{copied}
use octora.Base.{subst, sym, ◌∙◌, true, leb, lt→ltb, le→leb, Bool-cases, inl, inr, ltb→lt}
use octora.Base.Integers.{ℤ, pos, negsuc}
use octora.SingleSided.{
  le_bytes, write_u64, write_i32, write_u8, ◌put◌by◌, finished, Cursor, LiquidityParams,
  encode_liquidity_params_by_strategy,
}

length-le_bytes : (n x : ℕ) → length (le_bytes n x) ≡ n
unfolding le_bytes
length-le_bytes zero x = refl
length-le_bytes (suc n) x = ap suc (length-le_bytes n (x / 256))

-- The number that bytes stand for, the least significant one first.
abbrev pub of_le : List ℕ → ℕ
of_le [] = 0
of_le (b ∷ bs) = b + 256 * of_le bs

of_le-le_bytes4 : (x : ℕ) → x < 4294967296 → of_le (le_bytes 4 x) ≡ x
unfolding le_bytes
of_le-le_bytes4 x h = omega (arith, h)

of_le-le_bytes8 : (x : ℕ) → x < 18446744073709551616 → of_le (le_bytes 8 x) ≡ x
unfolding le_bytes
of_le-le_bytes8 x h = omega (arith, h)

-- A 32-bit number in two's complement.
abbrev pub read_i32 : List ℕ → ℤ
read_i32 bytes =
    if ltb (of_le bytes) 2147483648 then pos (of_le bytes) else negsuc (4294967295 - of_le bytes)

some_inj : {a b : List ℕ} → some a ≡ some b → a ≡ b
some_inj h = cc

le4 : (n : ℕ) → n < 4294967296 → (length (le_bytes 4 n) ≡ 4) × (of_le (le_bytes 4 n) ≡ n)
le4 n l = (length-le_bytes 4 n, of_le-le_bytes4 n l)

reads_pos :
    (n : ℕ) → n < 2147483648 → (length (le_bytes 4 n) ≡ 4) × (read_i32 (le_bytes 4 n) ≡ pos n)
reads_pos n l = let (size, value) = le4 n (omega (arith, l)) in (size, rw value (ground (arith, l)))

reads_negsuc :
    (n : ℕ)
    → n < 2147483648
    → (length (le_bytes 4 (4294967296 - suc n)) ≡ 4)
      × (read_i32 (le_bytes 4 (4294967296 - suc n)) ≡ negsuc n)
reads_negsuc n l =
    let (size, value) = le4 (4294967296 - suc n) (omega (arith, l)) in
    (size, rw value (ground (arith, l)))

-- What is written as a signed 32-bit number takes four bytes, and reads back as it was.
pub write_i32-reads :
    (value : ℤ) (bytes : List ℕ)
    → write_i32 value ≡ some bytes
    → (length bytes ≡ 4) × (read_i32 bytes ≡ value)
unfolding write_i32
write_i32-reads (pos n) bytes h = elim (Bool-cases (ltb n 2147483648)) [
  | inl l ↦
      subst (λ b. (length b ≡ 4) × (read_i32 b ≡ pos n)) {x = le_bytes 4 n}
        (some_inj (ground (arith, h, l))) (reads_pos n (ltb→lt n 2147483648 l))
  | inr l ↦ absurd (ground (arith, h, l))
]
write_i32-reads (negsuc n) bytes h = elim (Bool-cases (ltb n 2147483648)) [
  | inl l ↦
      subst (λ b. (length b ≡ 4) × (read_i32 b ≡ negsuc n)) {x = le_bytes 4 (4294967296 - suc n)}
        (some_inj (ground (arith, h, l))) (reads_negsuc n (ltb→lt n 2147483648 l))
  | inr l ↦ absurd (ground (arith, h, l))
]

-- What is written as an unsigned 64-bit number takes eight bytes, and reads back as it was.
pub write_u64-reads :
    (value : ℤ) (bytes : List ℕ)
    → write_u64 value ≡ some bytes
    → (length bytes ≡ 8) × (pos (of_le bytes) ≡ value)
unfolding write_u64
write_u64-reads (pos n) bytes h = elim (Bool-cases (ltb n 18446744073709551616)) [
  | inl l ↦
      subst (λ b. (length b ≡ 8) × (pos (of_le b) ≡ pos n)) {x = le_bytes 8 n}
        (some_inj (ground (arith, h, l)))
        (length-le_bytes 8 n, ap pos (of_le-le_bytes8 n (ltb→lt n 18446744073709551616 l)))
  | inr l ↦ absurd (ground (arith, h, l))
]
write_u64-reads (negsuc n) bytes h = absurd (ground (arith, h))

-- The numbers that the writes take.
abbrev pub IsU64 : ℤ → Type 0
IsU64 (pos n) = n < 18446744073709551616
IsU64 (negsuc n) = ⊥

abbrev pub IsI32 : ℤ → Type 0
IsI32 (pos n) = n < 2147483648
IsI32 (negsuc n) = n < 2147483648

write_u64-fits :
    (v : ℤ)
    → IsU64 v
    → (bytes : List ℕ) × (write_u64 v ≡ some bytes) × (length bytes ≡ 8) × (pos (of_le bytes) ≡ v)
unfolding write_u64
write_u64-fits (pos n) l =
    let e : write_u64 (pos n) ≡ some (le_bytes 8 n) = rw (lt→ltb n 18446744073709551616 l) refl in
    let (size, value) = write_u64-reads (pos n) (le_bytes 8 n) e in (le_bytes 8 n, e, size, value)
write_u64-fits (negsuc n) l = absurd l

write_i32-fits :
    (v : ℤ)
    → IsI32 v
    → (bytes : List ℕ) × (write_i32 v ≡ some bytes) × (length bytes ≡ 4) × (read_i32 bytes ≡ v)
unfolding write_i32
write_i32-fits (pos n) l =
    let e : write_i32 (pos n) ≡ some (le_bytes 4 n) = rw (lt→ltb n 2147483648 l) refl in
    let (size, value) = write_i32-reads (pos n) (le_bytes 4 n) e in (le_bytes 4 n, e, size, value)
write_i32-fits (negsuc n) l =
    let e : write_i32 (negsuc n) ≡ some (le_bytes 4 (4294967296 - suc n)) =
      rw (lt→ltb n 2147483648 l) refl in
    let (size, value) = write_i32-reads (negsuc n) (le_bytes 4 (4294967296 - suc n)) e in
    (le_bytes 4 (4294967296 - suc n), e, size, value)

length-alloc : (n : ℕ) → length (alloc n) ≡ n
length-alloc zero = refl
length-alloc (suc n) = ap suc (length-alloc n)

-- A write at the end of what is written moves the end.
put_next :
    (c : Option Cursor) (before bytes : List ℕ) (o width room step : ℕ)
    → c ≡ some (before ++ alloc (width + room), o)
    → o ≡ length before
    → length bytes ≡ width
    → (c put some bytes by step ≡ some ((before ++ bytes) ++ alloc room, o + step))
      × (o + width ≡ length (before ++ bytes))
put_next c before bytes o width room step e h k =
    let room_left : leb (o + length bytes) (length (before ++ alloc (width + room))) ≡ true =
      le→leb _ _ (
        omega (
          arith,
          h,
          k,
          length-append before (alloc (width + room)),
          length-alloc (width + room),
        )) in
    (
      rw (e, room_left)
          (ap (λ buf. some (buf, o + step))
            (copied before bytes o width room h k ∙ sym (append_assoc before bytes (alloc room)))),
      omega (arith, h, k, length-append before bytes),
    )

-- The 97 bytes of the layout: each field in its place, in its width, and it reads back as it was.
abbrev pub IsLayout : LiquidityParams → List ℕ → Type 0
IsLayout p bytes =
    (x : List ℕ) × (y : List ℕ) × (active : List ℕ) × (slippage : List ℕ) × (lower : List ℕ)
    × (upper : List ℕ) × (bytes
        ≡ x ++ y ++ active ++ slippage ++ lower ++ upper ++ p.strategy_type ∷ alloc 64)
    × (length bytes ≡ 97)
    × ((length x ≡ 8) × (pos (of_le x) ≡ p.amount_x))
    × ((length y ≡ 8) × (pos (of_le y) ≡ p.amount_y))
    × ((length active ≡ 4) × (read_i32 active ≡ p.active_id))
    × ((length slippage ≡ 4) × (read_i32 slippage ≡ p.max_active_bin_slippage))
    × ((length lower ≡ 4) × (read_i32 lower ≡ p.min_bin_id))
    × ((length upper ≡ 4) × (read_i32 upper ≡ p.max_bin_id))

-- Where the amounts are unsigned 64-bit numbers, the four other numbers signed 32-bit numbers, and the
-- strategy a byte, the encoding succeeds, and its 97 bytes are the fields in their order, each of which
-- reads back from its own 8 or 4 bytes, least significant first, then the strategy and 64 zeros.
pub encode_liquidity_params-IsLayout :
    (p : LiquidityParams)
    → IsU64 p.amount_x
    → IsU64 p.amount_y
    → IsI32 p.active_id
    → IsI32 p.max_active_bin_slippage
    → IsI32 p.min_bin_id
    → IsI32 p.max_bin_id
    → p.strategy_type < 256
    → (bytes : List ℕ) × (encode_liquidity_params_by_strategy p ≡ some bytes) × IsLayout p bytes
unfolding encode_liquidity_params_by_strategy write_u8
encode_liquidity_params-IsLayout p hx hy ha hs hl hu ht =
    let (x, wx, kx, rx) = write_u64-fits p.amount_x hx in
    let (y, wy, ky, ry) = write_u64-fits p.amount_y hy in
    let (a, wa, ka, ra) = write_i32-fits p.active_id ha in
    let (s, ws, ks, rs) = write_i32-fits p.max_active_bin_slippage hs in
    let (l, wl, kl, rl) = write_i32-fits p.min_bin_id hl in
    let (u, wu, ku, ru) = write_i32-fits p.max_bin_id hu in
    let t = p.strategy_type ∷ [] in
    let wt = lt→ltb p.strategy_type 256 ht in
    let (e1, n1) = put_next (some (alloc 97, 0)) [] x 0 8 89 8 refl refl kx in
    let (e2, n2) = put_next _ x y 8 8 81 8 e1 n1 ky in
    let (e3, n3) = put_next _ (x ++ y) a 16 4 77 4 e2 n2 ka in
    let (e4, n4) = put_next _ ((x ++ y) ++ a) s 20 4 73 4 e3 n3 ks in
    let (e5, n5) = put_next _ (((x ++ y) ++ a) ++ s) l 24 4 69 4 e4 n4 kl in
    let (e6, n6) = put_next _ ((((x ++ y) ++ a) ++ s) ++ l) u 28 4 65 4 e5 n5 ku in
    let (e7, n7) = put_next _ (((((x ++ y) ++ a) ++ s) ++ l) ++ u) t 32 1 64 0 e6 n6 refl in
    let all = ((((((x ++ y) ++ a) ++ s) ++ l) ++ u) ++ t) ++ alloc 64 in
    (
      all,
      rw (wx, wy, wa, ws, wl, wu, wt) (ap finished e7),
      (
        x,
        y,
        a,
        s,
        l,
        u,
        append_assoc (((((x ++ y) ++ a) ++ s) ++ l) ++ u) t (alloc 64),
        omega (
          arith,
          n7,
          length-append ((((((x ++ y) ++ a) ++ s) ++ l) ++ u) ++ t) (alloc 64),
          length-alloc 64,
        ),
        (kx, rx),
        (ky, ry),
        (ka, ra),
        (ks, rs),
        (kl, rl),
        (ku, ru),
      ),
    )
