-- ===== src/BitVector/Popcount.antt =====
-- `numbits` of src/bitdrill/Bit_Vector.hxx counts the 1 bits of a word. The word is read as four
-- bytes: a mask of four equal bytes acts on each, and on a byte all values are checked.
use Prim.Native.Nat.add
use native.Mathlib.Nat.{pow-suc}
use bitdrill.Base.{ℕ, zero, suc, ◌+◌, ◌-◌, ◌*◌, ◌/◌, ◌%◌, ◌^◌, ◌<◌, bit_and}
use bitdrill.Base.{◌≡◌, refl, ap, ap₂, sym, subst, ◌∙◌, arith, ltb, ltb→lt, one_if, count_true}
use bitdrill.Base.Bits.{odd, bits_of, bit_and-halves, bit_and-le}
use bitdrill.Base.Masks.{checked_below, checked_below→holds, equal_on_bytes, u32, shr}
use bitdrill.BitVector.{numbits}

-- A conjunction works on the lowest k digits and on the rest apart.
bit_and_fields :
    (k a q m p : ℕ)
    → a < 2 ^ k
    → m < 2 ^ k
    → bit_and (a + q * 2 ^ k) (m + p * 2 ^ k) ≡ bit_and a m + bit_and q p * 2 ^ k
bit_and_fields zero a q m p h g =
    let a_zero : a ≡ 0 = omega arith in
    let m_zero : m ≡ 0 = omega arith in rw (a_zero, m_zero) (ground arith)
bit_and_fields (suc k) a q m p h g = ground (
  arith,
  pow-suc 2 k,
  ap (λ (t : ℕ). q * t) (pow-suc 2 k),
  ap (λ (t : ℕ). p * t) (pow-suc 2 k),
  ap (λ (t : ℕ). bit_and q p * t) (pow-suc 2 k),
  bit_and-halves (a + q * 2 ^ suc k) (m + p * 2 ^ suc k),
  bit_and-halves a m,
  bit_and_fields k (a / 2) q (m / 2) p,
)

bit_and_byte :
    (a q m p : ℕ)
    → a < 256
    → m < 256
    → bit_and (a + q * 256) (m + p * 256) ≡ bit_and a m + bit_and q p * 256
bit_and_byte a q m p h g = bit_and_fields 8 a q m p h g

-- Four bytes as a word, the lowest first.
abbrev word : ℕ → ℕ → ℕ → ℕ → ℕ
word a b c d = a + (b + (c + d * 256) * 256) * 256

bit_and-word :
    (a b c d m : ℕ)
    → a < 256
    → b < 256
    → c < 256
    → m < 256
    → bit_and (word a b c d) (word m m m m)
      ≡ word (bit_and a m) (bit_and b m) (bit_and c m) (bit_and d m)
bit_and-word a b c d m ha hb hc hm = ground (
  arith,
  bit_and_byte a (b + (c + d * 256) * 256) m (m + (m + m * 256) * 256),
  bit_and_byte b (c + d * 256) m (m + m * 256),
  bit_and_byte c d m m,
)

-- Each of the three rounds on one byte.
abbrev pairs : ℕ → ℕ
pairs b = b - bit_and (b / 2) 0x55

abbrev nibbles : ℕ → ℕ
nibbles b = bit_and (pairs b) 0x33 + bit_and (pairs b / 4) 0x33

abbrev total : ℕ → ℕ
total b = nibbles b % 16 + nibbles b / 16

drop_top : (x : ℕ) → x < 256 → bit_and x 0x55 ≡ bit_and (x % 128) 0x55
drop_top =
    equal_on_bytes (λ x. bit_and x 0x55) (λ x. bit_and (x % 128) 0x55)
      (unfold checked_below in refl)

drop_two : (x : ℕ) → x < 256 → bit_and x 0x33 ≡ bit_and (x % 64) 0x33
drop_two =
    equal_on_bytes (λ x. bit_and x 0x33) (λ x. bit_and (x % 64) 0x33) (unfold checked_below in refl)

low_nibble : (x : ℕ) → x < 256 → bit_and x 0xf ≡ x % 16
low_nibble = equal_on_bytes (λ x. bit_and x 0xf) (λ x. x % 16) (unfold checked_below in refl)

nibbles_bound : (b : ℕ) → b < 256 → (nibbles b % 16 < 5) × (nibbles b / 16 < 5)
nibbles_bound b h = (
  ltb→lt _ _
      (checked_below→holds 256 (λ b. ltb (nibbles b % 16) 5) b (unfold checked_below in refl) h),
  ltb→lt _ _
      (checked_below→holds 256 (λ b. ltb (nibbles b / 16) 5) b (unfold checked_below in refl) h),
)

total_lem : (b : ℕ) → b < 256 → total b ≡ count_true (bits_of 8 b)
total_lem = equal_on_bytes total (λ b. count_true (bits_of 8 b)) (unfold checked_below in refl)

-- First round: counts of pairs.
pairs-word :
    (a b c d : ℕ)
    → a < 256
    → b < 256
    → c < 256
    → d < 256
    → u32 (word a b c d + 2 ^ 32 - bit_and (shr (word a b c d) 1) 0x55555555)
      ≡ word (pairs a) (pairs b) (pairs c) (pairs d)
pairs-word a b c d ha hb hc hd = ground (
  arith,
  bit_and-word (a / 2 + 128 * (b % 2)) (b / 2 + 128 * (c % 2)) (c / 2 + 128 * (d % 2)) (d / 2) 0x55,
  drop_top (a / 2 + 128 * (b % 2)),
  drop_top (b / 2 + 128 * (c % 2)),
  drop_top (c / 2 + 128 * (d % 2)),
  bit_and-le 256 (a / 2) 0x55,
  bit_and-le 256 (b / 2) 0x55,
  bit_and-le 256 (c / 2) 0x55,
  bit_and-le 256 (d / 2) 0x55,
)

masked_lt : (x : ℕ) → x < 256 → bit_and x 0x33 < 64
masked_lt x h = omega (arith, drop_two x h, bit_and-le 64 (x % 64) 0x33 (omega arith))

high_pairs_word :
    (a b c d : ℕ)
    → a < 256
    → b < 256
    → c < 256
    → d < 256
    → bit_and (shr (word a b c d) 2) 0x33333333
      ≡ word
          (bit_and (a / 4) 0x33)
          (bit_and (b / 4) 0x33)
          (bit_and (c / 4) 0x33)
          (bit_and (d / 4) 0x33)
high_pairs_word a b c d ha hb hc hd = ground (
  arith,
  bit_and-word (a / 4 + 64 * (b % 4)) (b / 4 + 64 * (c % 4)) (c / 4 + 64 * (d % 4)) (d / 4) 0x33,
  drop_two (a / 4 + 64 * (b % 4)),
  drop_two (b / 4 + 64 * (c % 4)),
  drop_two (c / 4 + 64 * (d % 4)),
)

-- Second round: counts of nibbles.
nibbles_word :
    (a b c d : ℕ)
    → a < 256
    → b < 256
    → c < 256
    → d < 256
    → u32 (bit_and (word a b c d) 0x33333333 + bit_and (shr (word a b c d) 2) 0x33333333)
      ≡ word
          (bit_and a 0x33 + bit_and (a / 4) 0x33)
          (bit_and b 0x33 + bit_and (b / 4) 0x33)
          (bit_and c 0x33 + bit_and (c / 4) 0x33)
          (bit_and d 0x33 + bit_and (d / 4) 0x33)
nibbles_word a b c d ha hb hc hd = omega (
  arith,
  bit_and-word a b c d 0x33 ha hb hc (omega arith),
  high_pairs_word a b c d ha hb hc hd,
  masked_lt a ha,
  masked_lt b hb,
  masked_lt c hc,
  masked_lt d hd,
  masked_lt (a / 4) (omega arith),
  masked_lt (b / 4) (omega arith),
  masked_lt (c / 4) (omega arith),
  masked_lt (d / 4) (omega arith),
)

-- A byte that holds two counts.
abbrev HasCounts : ℕ → Type 0
HasCounts y = (y % 16 < 5) × (y / 16 < 5)

-- Third round and the product, which adds the bytes up in the highest one.
total_word :
    (a b c d : ℕ)
    → HasCounts a
    → HasCounts b
    → HasCounts c
    → HasCounts d
    → shr (u32 (bit_and (u32 (word a b c d + shr (word a b c d) 4)) 0xf0f0f0f * 0x1010101)) 24
      ≡ (a % 16 + a / 16) + (b % 16 + b / 16) + (c % 16 + c / 16) + (d % 16 + d / 16)
total_word a b c d ha hb hc hd = ground (
  arith,
  bit_and-word (a + a / 16 + 16 * (b % 16)) (b + b / 16 + 16 * (c % 16))
      (c + c / 16 + 16 * (d % 16)) (d + d / 16) 0xf,
  low_nibble (a + a / 16 + 16 * (b % 16)),
  low_nibble (b + b / 16 + 16 * (c % 16)),
  low_nibble (c + c / 16 + 16 * (d % 16)),
  low_nibble (d + d / 16),
)

count_true-bits_of_split :
    (k n r q : ℕ)
    → r < 2 ^ k
    → count_true (bits_of (k + n) (r + q * 2 ^ k))
      ≡ count_true (bits_of k r) + count_true (bits_of n q)
count_true-bits_of_split zero n r q h =
    let r_zero : r ≡ 0 = omega arith in
    let same : r + q * 2 ^ 0 ≡ q = omega arith in rw same (rw (add.zero n) (omega arith))
count_true-bits_of_split (suc k) n r q h =
    let doubled : q * 2 ^ suc k ≡ 2 * (q * 2 ^ k) =
      omega (arith, ap (λ (t : ℕ). q * t) (pow-suc 2 k)) in
    let half : (r + q * 2 ^ suc k) / 2 ≡ r / 2 + q * 2 ^ k = omega arith in
    let low : odd (r + q * 2 ^ suc k) ≡ odd r = ground arith in
    let rest = count_true-bits_of_split k n (r / 2) q (omega (arith, pow-suc 2 k)) in
    rw add.suc (rw half (omega (arith, ap one_if low, rest)))

pairs-lt : (b : ℕ) → b < 256 → pairs b < 256
pairs-lt b h = omega arith

numbits-word :
    (a b c d : ℕ)
    → a < 256
    → b < 256
    → c < 256
    → d < 256
    → numbits (word a b c d) ≡ total a + total b + total c + total d
unfolding numbits
numbits-word a b c d ha hb hc hd =
    let first = pairs-word a b c d ha hb hc hd in
    let second =
      nibbles_word (pairs a) (pairs b) (pairs c) (pairs d) (pairs-lt a ha) (pairs-lt b hb)
        (pairs-lt c hc) (pairs-lt d hd) in
    let third =
      total_word (nibbles a) (nibbles b) (nibbles c) (nibbles d) (nibbles_bound a ha)
        (nibbles_bound b hb) (nibbles_bound c hc) (nibbles_bound d hd) in
    rw first (rw second third)

bits_of-word :
    (a b c d : ℕ)
    → a < 256
    → b < 256
    → c < 256
    → d < 256
    → count_true (bits_of 32 (word a b c d))
      ≡ count_true (bits_of 8 a)
        + count_true (bits_of 8 b)
        + count_true (bits_of 8 c)
        + count_true (bits_of 8 d)
bits_of-word a b c d ha hb hc hd =
    count_true-bits_of_split 8 24 a (b + (c + d * 256) * 256) ha
    ∙ omega (
      arith,
      count_true-bits_of_split 8 16 b (c + d * 256) hb,
      count_true-bits_of_split 8 8 c d hc,
    )

numbits-word-count :
    (a b c d : ℕ)
    → a < 256
    → b < 256
    → c < 256
    → d < 256
    → numbits (word a b c d) ≡ count_true (bits_of 32 (word a b c d))
numbits-word-count a b c d ha hb hc hd =
    numbits-word a b c d ha hb hc hd
    ∙ ap₂ ◌+◌ (ap₂ ◌+◌ (ap₂ ◌+◌ (total_lem a ha) (total_lem b hb)) (total_lem c hc))
        (total_lem d hd)
    ∙ sym (bits_of-word a b c d ha hb hc hd)

-- `numbits` of every 32-bit word is the number of its digits that are 1.
pub numbits_lem : (v : ℕ) → v < 2 ^ 32 → numbits v ≡ count_true (bits_of 32 v)
numbits_lem v h =
    let bytes : word (v % 256) (v / 256 % 256) (v / 65536 % 256) (v / 16777216) ≡ v = omega arith in
    subst (λ x. numbits x ≡ count_true (bits_of 32 x)) bytes
      (numbits-word-count (v % 256) (v / 256 % 256) (v / 65536 % 256) (v / 16777216) (omega arith)
        (omega arith) (omega arith) (omega arith))
