-- ===== src/BitVector/Access.antt =====
-- `get`, `set` and `unset` of src/bitdrill/Bit_Vector.hxx: one bit, and what happens to the others.
use mathlib.Core.Path.{fun_ext}
use bitdrill.Base.{not, ltb→lt}
use bitdrill.Base.{
  ℕ, zero, suc, ◌+◌, ◌-◌, ◌*◌, ◌/◌, ◌%◌, ◌^◌, ◌<◌, bit_and, bit_or, ◌≡◌, refl, ap, ◌∙◌,
}
use bitdrill.Base.{Bool, true, false, ◌&&◌, ◌||◌, Option, some, List, [], ◌∷◌, ◌++◌, arith, sym}
use bitdrill.Base.{
  length, length-append, All, get_elem?, set, length-set, ltb, leb, one_if, if◌then◌else◌, ◌>>=◌,
  ◌==◌, ==_iff, Bool-cases, inl, inr,
}
use bitdrill.Base.Bits.{
  test_bit, bits_of, length-bits_of, test_bit-bit_and, test_bit-bit_or, bit_or-lt, bit_and-le,
}
use bitdrill.Base.Masks.{u32, shl, bit_and-pow, test_bit-pow, checked_below, checked_below→holds}
use bitdrill.BitVector.{BitVector, get, set_bit, unset}
use bitdrill.Base.Count.{bit_of}
use bitdrill.BitVector.Words.{IsWord, Fits, digits}
use bitdrill.BitVector.Laws.{IsValid, to_bits, fits}

get_elem?-bits_of : (n w i : ℕ) → i < n → get_elem? (bits_of n w) i ≡ some (test_bit w i)
get_elem?-bits_of zero w i h = absurd (omega arith)
get_elem?-bits_of (suc n) w zero h = refl
get_elem?-bits_of (suc n) w (suc i) h = get_elem?-bits_of n (w / 2) i (omega arith)

get_elem?-append_left {ℓ} :
    {A : Type ℓ} (xs ys : List A) (i : ℕ) → i < length xs → get_elem? (xs ++ ys) i ≡ get_elem? xs i
get_elem?-append_left [] ys i h = absurd (omega arith)
get_elem?-append_left (x ∷ xs) ys zero h = refl
get_elem?-append_left (x ∷ xs) ys (suc i) h = get_elem?-append_left xs ys i (omega arith)

get_elem?-append_right {ℓ} :
    {A : Type ℓ} (xs ys : List A) (i j : ℕ)
    → i ≡ length xs + j
    → get_elem? (xs ++ ys) i ≡ get_elem? ys j
get_elem?-append_right [] ys i j h = ap (get_elem? ys) (omega (arith, h))
get_elem?-append_right (x ∷ xs) ys zero j h = absurd (omega arith)
get_elem?-append_right (x ∷ xs) ys (suc i) j h = get_elem?-append_right xs ys i j (omega arith)

-- The bit at an index, read from its word.
abbrev word_bit : List ℕ → ℕ → Option Bool
word_bit ws i = get_elem? ws (i / 32) >>= λ w. some (test_bit w (i % 32))

get_elem?-digits :
    (e n : ℕ) (ws : List ℕ) (i : ℕ)
    → e < 32
    → i < n * 32 + e
    → get_elem? (digits e n ws) i ≡ word_bit ws i
get_elem?-digits e zero [] i h lt = refl
get_elem?-digits e zero (w ∷ ws) i h lt =
    let first : i / 32 ≡ 0 = omega arith in
    let same : i % 32 ≡ i = omega arith in rw (first, same) (get_elem?-bits_of e w i (omega arith))
get_elem?-digits e (suc n) [] i h lt = refl
get_elem?-digits e (suc n) (w ∷ ws) i h lt = elim (Bool-cases (ltb i 32)) [
  | inl low ↦
      let first : i / 32 ≡ 0 = ground arith in
      let same : i % 32 ≡ i = ground arith in
      get_elem?-append_left (bits_of 32 w) (digits e n ws) i (ground (arith, length-bits_of 32 w))
      ∙ rw (first, same) (get_elem?-bits_of 32 w i (ground arith))
  | inr high ↦
      let later : i / 32 ≡ suc ((i - 32) / 32) = ground arith in
      let same : i % 32 ≡ (i - 32) % 32 = ground arith in
      get_elem?-append_right (bits_of 32 w) (digits e n ws) i (i - 32)
        (ground (arith, length-bits_of 32 w))
      ∙ get_elem?-digits e n ws (i - 32) h (ground arith)
      ∙ rw (later, same)
]

get-word_bit : (bv : BitVector) (ix : ℕ) → get bv ix ≡ word_bit bv.vec ix
unfolding get
get-word_bit bv ix = ap (λ f. get_elem? bv.vec (ix / 32) >>= f) (fun_ext λ w. ap some (tests w))
  where
    tests : (w : ℕ) → not (bit_and w (1 * 2 ^ (ix % 32)) == 0) ≡ test_bit w (ix % 32)
    tests w =
        let one : 1 * 2 ^ (ix % 32) ≡ 2 ^ (ix % 32) = omega arith in
        rw one (bit_and-pow (ix % 32) w)

-- Inside a valid vector `get` reads the bit that the list of bits has at that index.
pub get-to_bits :
    (bv : BitVector) (ix : ℕ)
    → IsValid bv
    → ix < bv.num_bits
    → get bv ix ≡ get_elem? (to_bits bv) ix
get-to_bits bv ix v h =
    get-word_bit bv ix
    ∙ sym (
        get_elem?-digits bv.end_offset (bv.num_bits / 32) bv.vec ix (omega (arith, v.ends))
          (omega (arith, v.ends)))

get_elem?-in_range {ℓ} :
    {A : Type ℓ} (xs : List A) (i : ℕ) → i < length xs → (x : A) × (get_elem? xs i ≡ some x)
get_elem?-in_range [] i h = absurd (omega arith)
get_elem?-in_range (x ∷ xs) zero h = (x, refl)
get_elem?-in_range (x ∷ xs) (suc i) h = get_elem?-in_range xs i (omega arith)

get_elem?-set {ℓ} :
    {A : Type ℓ} (xs : List A) (i j : ℕ) (x : A)
    → i < length xs
    → get_elem? (set xs i x) j ≡ (if i == j then some x else get_elem? xs j)
get_elem?-set [] i j x h = absurd (omega arith)
get_elem?-set (y ∷ ys) zero zero x h = refl
get_elem?-set (y ∷ ys) zero (suc j) x h = ground arith
get_elem?-set (y ∷ ys) (suc i) zero x h = ground arith
get_elem?-set (y ∷ ys) (suc i) (suc j) x h = ground (arith, get_elem?-set ys i j x)

All-get : (xs : List ℕ) (i : ℕ) {x : ℕ} → All IsWord xs → get_elem? xs i ≡ some x → IsWord x
All-get [] i h e = cc
All-get (y ∷ ys) zero h e = ground (arith, h.0)
All-get (y ∷ ys) (suc i) h e = All-get ys i h.1 e

All-set : (xs : List ℕ) (i x : ℕ) → All IsWord xs → IsWord x → All IsWord (set xs i x)
All-set [] i x h w = tt
All-set (y ∷ ys) zero x h w = (w, h.1)
All-set (y ∷ ys) (suc i) x h w = (h.0, All-set ys i x h.1 w)

-- What an operation that changes bits in place comes back with: a valid vector of the same size
-- in which `get` reads `change` at each index.
pub record IsUpdate (bv : BitVector) (change : ℕ → Option Bool) (result : Option BitVector)
    : Type 0 where
  pub out : BitVector
  pub returns : result ≡ some out
  pub valid : IsValid out
  pub same_size : out.num_bits ≡ bv.num_bits
  pub reads : (j : ℕ) → j < bv.num_bits → get out j ≡ change j

-- A store of one word that changes the bits of that word to `bits`.
stored :
    (bv : BitVector) (ix w : ℕ) (bits : ℕ → Bool)
    → IsValid bv
    → ix < bv.num_bits
    → IsWord w
    → ((m : ℕ) → m < 32 → test_bit w m ≡ bits m)
    → IsUpdate bv
        (λ j. if ix / 32 == j / 32 then some (bits (j % 32)) else get bv j)
        (some (record bv { vec = set bv.vec (ix / 32) w }))
stored bv ix w bits v h word tests = record {
  out = record bv { vec = set bv.vec (ix / 32) w };
  returns = refl;
  valid = record {
    starts = v.starts;
    ends = v.ends;
    size = length-set bv.vec (ix / 32) w ∙ v.size;
    words = All-set bv.vec (ix / 32) w v.words word;
  };
  same_size = refl;
  reads = λ j lt.
      get-word_bit _ j
      ∙ ap (λ o. o >>= λ x. some (test_bit x (j % 32)))
          (get_elem?-set bv.vec (ix / 32) (j / 32) w (omega (arith, v.size)))
      ∙ ground (arith, get-word_bit bv j, tests (j % 32));
}

pow_table : checked_below 32 (λ k. ltb (2 ^ k) (2 ^ 32)) ≡ true
unfolding checked_below
pow_table = refl

pow-IsWord : (k : ℕ) → k < 32 → IsWord (2 ^ k)
pow-IsWord k h = ltb→lt _ _ (checked_below→holds 32 (λ k. ltb (2 ^ k) (2 ^ 32)) k pow_table h)

-- `1L << k` set in a word.
set_mask : (w k : ℕ) → IsWord w → k < 32 → u32 (bit_or w (shl 1 k)) ≡ bit_or w (2 ^ k)
set_mask w k h lt =
    let one : shl 1 k ≡ 2 ^ k = omega arith in
    rw one (omega (arith, bit_or-lt 32 w (2 ^ k) h (pow-IsWord k lt)))

-- `0xfffffffe << k` of a `uint32_t` has a 1 exactly above the index k.
unset_mask : (k j : ℕ) → k < 32 → j < 32 → test_bit (u32 (shl 0xfffffffe k)) j ≡ ltb k j
unset_mask k j hk hj = one_if-injective _ _ (
    (==_iff _ _).0 (
      checked_below→holds 32 (row k) j
        (checked_below→holds 32 (λ k. checked_below 32 (row k)) k table hk) hj))
  where
    row : ℕ → ℕ → Bool
    row k j = one_if (test_bit (u32 (shl 0xfffffffe k)) j) == one_if (ltb k j)

    table : checked_below 32 (λ k. checked_below 32 (row k)) ≡ true
    table = unfold checked_below in refl

    one_if-injective : (x y : Bool) → one_if x ≡ one_if y → x ≡ y
    one_if-injective x y h = ground arith

-- Inside a valid vector `set (ix)` makes the bit at `ix` a 1 and changes no other.
pub set_bit-IsUpdate :
    (bv : BitVector) (ix : ℕ)
    → IsValid bv
    → ix < bv.num_bits
    → IsUpdate bv (λ j. if ix == j then some true else get bv j) (set_bit bv ix)
unfolding set_bit
set_bit-IsUpdate bv ix v h =
    let (w, found) = get_elem?-in_range bv.vec (ix / 32) (omega (arith, v.size)) in
    let word = All-get bv.vec (ix / 32) v.words found in
    let k_lt : ix % 32 < 32 = omega arith in
    let exact = set_mask w (ix % 32) word k_lt in
    let fits = bit_or-lt 32 w (2 ^ (ix % 32)) word (pow-IsWord (ix % 32) k_lt) in
    let done =
      stored bv ix (bit_or w (2 ^ (ix % 32))) (λ m. test_bit w m || (ix % 32 == m)) v h fits
        λ m _.
          test_bit-bit_or m w (2 ^ (ix % 32))
          ∙ ap (◌||◌ (test_bit w m)) (test_bit-pow (ix % 32) m) in
    record {
      out = done.out;
      returns = rw found (rw exact done.returns);
      valid = done.valid;
      same_size = done.same_size;
      reads = λ j lt. done.reads j lt ∙ ground (arith, get-word_bit bv j, found);
    }

-- Inside a valid vector `unset (ix)` makes the bit at `ix` a 0, and with it every bit of the same
-- word at a smaller index.
pub unset-IsUpdate :
    (bv : BitVector) (ix : ℕ)
    → IsValid bv
    → ix < bv.num_bits
    → IsUpdate bv
        (λ j. if (ix / 32 == j / 32) && leb j ix then some false else get bv j)
        (unset bv ix)
unfolding unset
unset-IsUpdate bv ix v h =
    let (w, found) = get_elem?-in_range bv.vec (ix / 32) (omega (arith, v.size)) in
    let word = All-get bv.vec (ix / 32) v.words found in
    let mask : ℕ = u32 (shl 0xfffffffe (ix % 32)) in
    let fits = bit_and-le w w mask (omega arith) in
    let done =
      stored bv ix (bit_and w mask) (λ m. test_bit w m && ltb (ix % 32) m) v h
        (omega (arith, word, fits))
        λ m lt.
          test_bit-bit_and m w mask
          ∙ ap (◌&&◌ (test_bit w m)) (unset_mask (ix % 32) m (omega arith) lt) in
    record {
      out = done.out;
      returns = rw found done.returns;
      valid = done.valid;
      same_size = done.same_size;
      reads = λ j lt. done.reads j lt ∙ ground (arith, get-word_bit bv j, found);
    }

length-digits : (e n : ℕ) (ws : List ℕ) → Fits e n ws → length (digits e n ws) ≡ n * 32 + e
length-digits zero zero [] f = omega arith
length-digits zero zero (w ∷ ws) f = absurd (omega arith)
length-digits (suc e) zero [] f = absurd (omega arith)
length-digits (suc e) zero (w ∷ ws) f = omega (arith, length-bits_of (suc e) w)
length-digits e (suc n) [] f = absurd (omega arith)
length-digits e (suc n) (w ∷ ws) f = omega (
  arith,
  length-append (bits_of 32 w) (digits e n ws),
  length-bits_of 32 w,
  length-digits e n ws (omega arith),
)

pub length-to_bits : (bv : BitVector) → IsValid bv → length (to_bits bv) ≡ bv.num_bits
length-to_bits bv v =
    length-digits bv.end_offset (bv.num_bits / 32) bv.vec (fits v) ∙ omega (arith, v.ends)

get_elem?-bit_of :
    (bits : List Bool) (t : ℕ) → t < length bits → get_elem? bits t ≡ some (bit_of bits t)
get_elem?-bit_of [] t h = absurd (omega arith)
get_elem?-bit_of (b ∷ bits) zero h = refl
get_elem?-bit_of (b ∷ bits) (suc t) h = get_elem?-bit_of bits t (omega arith)

pub get-bit_of :
    (bv : BitVector) (t : ℕ)
    → IsValid bv
    → t < bv.num_bits
    → get bv t ≡ some (bit_of (to_bits bv) t)
get-bit_of bv t v h =
    get-to_bits bv t v h ∙ get_elem?-bit_of (to_bits bv) t (omega (arith, length-to_bits bv v))
