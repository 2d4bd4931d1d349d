-- ===== src/BitVector.antt =====
-- src/bitdrill/Bit_Vector.hxx: a vector of bits in 32-bit words, the smaller indices in the less
-- significant bits.
--
-- `none` is a run that does not come back with a value: a failed `assert`, an `exit`, or an access
-- outside the words, which C++ leaves undefined. Words are numbers below 2 ^ 32, and `u32` cuts
-- what a `uint32_t` cannot hold.
pub mod Words
pub mod Popcount
pub mod Laws
pub mod Access
pub mod Runs
use bitdrill.Base.{ℕ, zero, suc, ◌+◌, ◌-◌, ◌*◌, ◌/◌, ◌%◌, ◌^◌, bit_and, bit_or}
use bitdrill.Base.{Bool, not, Option, some, none, List, [], ◌∷◌}
use bitdrill.Base.{length, get_elem?, set, replicate, if◌then◌else◌, ◌==◌, ◌>>=◌}
use bitdrill.Base.Masks.{u32, shl, shr, complement, high_mask}

pub record BitVector : Type 0 where
  pub num_bits : ℕ
  pub start_offset : ℕ
  pub end_offset : ℕ
  pub vec : List ℕ

-- The constructor only calls `resize`, which overwrites every field.
unfoldable pub resize : ℕ → BitVector
resize size = record {
  num_bits = size;
  start_offset = 0;
  end_offset = size % 32;
  vec = replicate ((size + 31) / 32) 0;
}

unfoldable pub get : BitVector → ℕ → Option Bool
get bv ix = do w ← get_elem? bv.vec (ix / 32); some (not (bit_and w (shl 1 (ix % 32)) == 0))

unfoldable pub set_bit : BitVector → ℕ → Option BitVector
set_bit bv ix = do
  w ← get_elem? bv.vec (ix / 32)
  some (record bv { vec = set bv.vec (ix / 32) (u32 (bit_or w (shl 1 (ix % 32)))) })

unfoldable pub unset : BitVector → ℕ → Option BitVector
unset bv ix = do
  w ← get_elem? bv.vec (ix / 32)
  some (record bv { vec = set bv.vec (ix / 32) (bit_and w (u32 (shl 0xfffffffe (ix % 32)))) })

-- How many 1 bits a word has, by sums of neighbouring fields of 1, 2 and 4 bits.
unfoldable pub numbits : ℕ → ℕ
numbits v =
    let v1 = u32 (v + 2 ^ 32 - bit_and (shr v 1) 0x55555555) in
    let v2 = u32 (bit_and v1 0x33333333 + bit_and (shr v1 2) 0x33333333) in
    shr (u32 (bit_and (u32 (v2 + shr v2 4)) 0xf0f0f0f * 0x1010101)) 24

-- The rounds of a loop from the first word to `end`, which is moved back by one where the last
-- word is only partly used. Where there is no word, `end` lies before the null pointer that the
-- first word's address then is, so that as an address it is past every word: the loop makes a
-- round, and reads a word that is not there.
unfoldable pub full_words : BitVector → ℕ
full_words bv =
    if length bv.vec == 0
    then 1
    else if bv.end_offset == 0
    then length bv.vec
    else length bv.vec - 1

-- In the loops below `e` is `end_offset` and the number that falls counts the full words left.
module _ (e : ℕ) where
  intersect_last : List ℕ → List ℕ → Option (List ℕ)
  intersect_last (a ∷ rest) (b ∷ _) = some (bit_and a (bit_or b (high_mask e)) ∷ rest)
  intersect_last _ _ = none

  pub intersect_words : ℕ → List ℕ → List ℕ → Option (List ℕ)
  unfolding intersect_last
  intersect_words zero l r = if e == 0 then some l else intersect_last l r
  intersect_words (suc n) (a ∷ l) (b ∷ r) = do
    rest ← intersect_words n l r
    some (bit_and a b ∷ rest)
  intersect_words (suc n) _ _ = none

  write_last : List ℕ → List ℕ → List ℕ → Option (List ℕ)
  write_last (a ∷ _) (b ∷ _) (c ∷ rest) = some (bit_and a (bit_or b (high_mask e)) ∷ rest)
  write_last _ _ _ = none

  pub write_words : ℕ → List ℕ → List ℕ → List ℕ → Option (List ℕ)
  unfolding write_last
  write_words zero l r out = if e == 0 then some out else write_last l r out
  write_words (suc n) (a ∷ l) (b ∷ r) (c ∷ out) = do
    rest ← write_words n l r out
    some (bit_and a b ∷ rest)
  write_words (suc n) _ _ _ = none

  count_last : List ℕ → ℕ → Option ℕ
  count_last (a ∷ _) count = some (count + numbits (bit_and a (complement (high_mask e))))
  count_last [] count = none

  pub count_words : ℕ → List ℕ → ℕ → Option ℕ
  unfolding count_last
  count_words zero l count = if e == 0 then some count else count_last l count
  count_words (suc n) (a ∷ l) count = count_words n l (count + numbits a)
  count_words (suc n) [] count = none

  intersect_and_count_last : List ℕ → List ℕ → ℕ → Option (ℕ × List ℕ)
  intersect_and_count_last (a ∷ rest) (b ∷ _) count =
      let c = bit_and a (bit_or b (high_mask e)) in
      some (count + numbits (bit_and c (complement (high_mask e))), c ∷ rest)
  intersect_and_count_last _ _ count = none

  pub intersect_and_count_words : ℕ → List ℕ → List ℕ → ℕ → Option (ℕ × List ℕ)
  unfolding intersect_and_count_last
  intersect_and_count_words zero l r count =
      if e == 0 then some (count, l) else intersect_and_count_last l r count
  intersect_and_count_words (suc n) (a ∷ l) (b ∷ r) count = do
    result ← intersect_and_count_words n l r (count + numbits (bit_and a b))
    some (result.0, bit_and a b ∷ result.1)
  intersect_and_count_words (suc n) _ _ count = none

  count_intersection_last : List ℕ → List ℕ → ℕ → Option ℕ
  count_intersection_last (a ∷ _) (b ∷ _) count =
      let c = bit_and a (bit_or b (high_mask e)) in
      some (count + numbits (bit_and c (complement (high_mask e))))
  count_intersection_last _ _ count = none

  pub count_intersection_words : ℕ → List ℕ → List ℕ → ℕ → Option ℕ
  unfolding count_intersection_last
  count_intersection_words zero l r count =
      if e == 0 then some count else count_intersection_last l r count
  count_intersection_words (suc n) (a ∷ l) (b ∷ r) count =
      count_intersection_words n l r (count + numbits (bit_and a b))
  count_intersection_words (suc n) _ _ count = none

-- The checks that every operation on two vectors makes first: `assert (false)` where the sizes
-- differ, an `exit` or an `assert` where the offsets do or are not 0.
abbrev pub compatible {ℓ} : {A : Type ℓ} → BitVector → BitVector → Option A → Option A
compatible a b result =
    if a.num_bits == b.num_bits
    then if a.start_offset == b.start_offset
      then if a.start_offset == 0 then result else none
      else none
    else none

-- `a.intersect(b)`: the new value of `a`.
unfoldable pub intersect : BitVector → BitVector → Option BitVector
intersect a b = compatible a b do
  words ← intersect_words a.end_offset (full_words a) a.vec b.vec
  some (record a { vec = words })

-- `a.intersect(b, result)`: the new value of `result`.
unfoldable pub intersect_into : BitVector → BitVector → BitVector → Option BitVector
intersect_into a b result =
    let out = if result.num_bits == b.num_bits then result else resize b.num_bits in
    compatible a b do
      words ← write_words a.end_offset (full_words a) a.vec b.vec out.vec
      some (record out { vec = words })

unfoldable pub count : BitVector → Option ℕ
count a = if a.start_offset == 0 then count_words a.end_offset (full_words a) a.vec 0 else none

-- `a.intersect_and_count(b)`: the count, and the new value of `a`.
unfoldable pub intersect_and_count : BitVector → BitVector → Option (ℕ × BitVector)
intersect_and_count a b = compatible a b do
  result ← intersect_and_count_words a.end_offset (full_words a) a.vec b.vec 0
  some (result.0, record a { vec = result.1 })

unfoldable pub count_intersection : BitVector → BitVector → Option ℕ
count_intersection a b =
    compatible a b (count_intersection_words a.end_offset (full_words a) a.vec b.vec 0)
