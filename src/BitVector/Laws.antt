-- ===== src/BitVector/Laws.antt =====
-- src/bitdrill/Bit_Vector.hxx as a vector of bits: every operation against the list of its bits.
use Prim.Native.Nat.add
use mathlib.Core.Path.{fun_ext}
use bitdrill.Base.{length-replicate, Bool-cases, ==_iff, inl, inr, if◌then◌else◌}
use bitdrill.Base.Bits.{bits_of}
use bitdrill.Base.{ℕ, zero, suc, ◌+◌, ◌*◌, ◌/◌, ◌%◌, ◌<◌, min, ◌≡◌, refl, ap, ap₂, ◌∙◌}
use bitdrill.Base.{Bool, false, Option, some, none, List, [], ◌∷◌, ◌++◌, arith, sym}
use bitdrill.Base.{length, All, count_true, zip_and, replicate, ◌>>=◌, ◌==◌}
use bitdrill.BitVector.{
  BitVector, resize, intersect, intersect_into, count, intersect_and_count, count_intersection,
  full_words, compatible, intersect_words, write_words, intersect_and_count_words,
}
use bitdrill.BitVector.Words.{
  IsWord, digits, Fits, IsIntersection, intersect_words_lem, write_words_lem, count_words_lem,
  intersect_and_count_words_lem, count_intersection_words_lem,
}

pub record IsValid (bv : BitVector) : Type 0 where
  pub starts : bv.start_offset ≡ 0
  pub ends : bv.end_offset ≡ bv.num_bits % 32
  pub size : length bv.vec ≡ (bv.num_bits + 31) / 32
  pub words : All IsWord bv.vec

-- The bits by index: a vector of `num_bits` bits.
abbrev pub to_bits : BitVector → List Bool
to_bits bv = digits bv.end_offset (bv.num_bits / 32) bv.vec

module _ {a : BitVector} (v : IsValid a) where
  offset-lt : a.end_offset < 32
  offset-lt = omega (arith, v.ends)

  full_words_lem : 0 < a.num_bits → full_words a ≡ a.num_bits / 32
  unfolding full_words
  full_words_lem some_bit = ground (arith, v.ends, v.size, some_bit)

  pub fits : Fits a.end_offset (a.num_bits / 32) a.vec
  fits = ground (arith, v.ends, v.size)

-- The result of an operation that came back with a vector of bits `bits`.
pub record HasBits (bits : List Bool) (n : ℕ) (result : Option BitVector) : Type 0 where
  pub out : BitVector
  pub returns : result ≡ some out
  pub valid : IsValid out
  pub same_size : out.num_bits ≡ n
  pub holds : to_bits out ≡ bits

pub compatible_lem {ℓ} :
    {A : Type ℓ} {a b : BitVector} (result : Option A)
    → IsValid a
    → IsValid b
    → a.num_bits ≡ b.num_bits
    → compatible a b result ≡ result
compatible_lem {a = a} {b = b} result va vb same = ground (arith, va.starts, vb.starts)

module _ {a b : BitVector} (va : IsValid a) (vb : IsValid b) (same : a.num_bits ≡ b.num_bits)
    (some_bit : 0 < a.num_bits) where
  other-Fits : Fits a.end_offset (a.num_bits / 32) b.vec
  other-Fits = ground (arith, va.ends, vb.ends, vb.size, fits vb)

  other_bits : digits a.end_offset (a.num_bits / 32) b.vec ≡ to_bits b
  other_bits =
      ap₂ (λ e n. digits e n b.vec) (va.ends ∙ ap (λ n. n % 32) same ∙ sym vb.ends)
        (ap (λ n. n / 32) same)

  words_intersect :
      IsIntersection a.end_offset
        (a.num_bits / 32)
        a.vec
        b.vec
        (intersect_words a.end_offset (full_words a) a.vec b.vec)
  words_intersect =
      let rounds = full_words_lem va some_bit in
      rw rounds (
        intersect_words_lem a.end_offset (a.num_bits / 32) a.vec b.vec (offset-lt va) (fits va)
          other-Fits va.words)

  -- The vector that `intersect` leaves.
  abbrev conjunction : BitVector
  conjunction = record a { vec = words_intersect.out }

  intersect_returns : intersect a b ≡ some conjunction
  unfolding intersect
  intersect_returns = compatible_lem _ va vb same ∙ rw words_intersect.returns

  conjunction-IsValid : IsValid conjunction
  conjunction-IsValid = record {
    starts = va.starts;
    ends = va.ends;
    size = words_intersect.size ∙ va.size;
    words = words_intersect.words;
  }

  conjunction_bits : to_bits conjunction ≡ zip_and (to_bits a) (to_bits b)
  conjunction_bits = words_intersect.bits ∙ ap (zip_and (to_bits a)) other_bits

-- For two valid vectors of one size that is not 0, `intersect` comes back with a valid vector of that size
-- whose bits are the conjunctions of theirs, index by index.
pub intersect-HasBits :
    (a b : BitVector)
    → IsValid a
    → IsValid b
    → a.num_bits ≡ b.num_bits
    → 0 < a.num_bits
    → HasBits (zip_and (to_bits a) (to_bits b)) a.num_bits (intersect a b)
intersect-HasBits a b va vb same some_bit = record {
  out = conjunction va vb same some_bit;
  returns = intersect_returns va vb same some_bit;
  valid = conjunction-IsValid va vb same some_bit;
  same_size = refl;
  holds = conjunction_bits va vb same some_bit;
}

same_fields :
    {n m s t e f : ℕ} (w : List ℕ)
    → n ≡ m
    → s ≡ t
    → e ≡ f
    → ◌≡◌ {A = BitVector}
        (record { num_bits = n; start_offset = s; end_offset = e; vec = w })
        (record { num_bits = m; start_offset = t; end_offset = f; vec = w })
same_fields w p q r i = record { num_bits = p i; start_offset = q i; end_offset = r i; vec = w }

bits_of-zero : (k : ℕ) → bits_of k 0 ≡ replicate k false
bits_of-zero zero = refl
bits_of-zero (suc k) = ap (◌∷◌ false) (bits_of-zero k)

replicate-append {ℓ} :
    {A : Type ℓ} (k j : ℕ) (a : A) → replicate k a ++ replicate j a ≡ replicate (k + j) a
replicate-append zero j a = rw (add.zero j)
replicate-append (suc k) j a = rw add.suc (ap (◌∷◌ a) (replicate-append k j a))

digits-zeros : (e m : ℕ) → digits e m (replicate (m + min e 1) 0) ≡ replicate (m * 32 + e) false
digits-zeros zero zero = refl
digits-zeros (suc e) zero = rw one_word (bits_of-zero (suc e) ∙ ap (λ k. replicate k false) same)
  where
    one_word : 0 + min (suc e) 1 ≡ 1
    one_word = omega arith

    same : suc e ≡ 0 * 32 + suc e
    same = omega arith
digits-zeros e (suc m) = rw add.suc (
    ap₂ ◌++◌ (bits_of-zero 32) (digits-zeros e m)
    ∙ replicate-append 32 (m * 32 + e) false
    ∙ ap (λ k. replicate k false) total)
  where
    total : 32 + (m * 32 + e) ≡ suc m * 32 + e
    total = omega arith

All-zeros : (k : ℕ) → All IsWord (replicate k 0)
All-zeros zero = tt
All-zeros (suc k) = (omega arith, All-zeros k)

pub resize-IsValid : (n : ℕ) → IsValid (resize n)
unfolding resize
resize-IsValid n = record {
  starts = refl;
  ends = refl;
  size = length-replicate _ 0;
  words = All-zeros _;
}

pub num_bits-resize : (n : ℕ) → (resize n).num_bits ≡ n
unfolding resize
num_bits-resize n = refl

pub to_bits-resize : (n : ℕ) → to_bits (resize n) ≡ replicate n false
unfolding resize
to_bits-resize n =
    let longs : (n + 31) / 32 ≡ n / 32 + min (n % 32) 1 = omega arith in
    let total : n / 32 * 32 + n % 32 ≡ n = omega arith in
    ap (λ k. digits (n % 32) (n / 32) (replicate k 0)) longs
    ∙ digits-zeros (n % 32) (n / 32)
    ∙ ap (λ k. replicate k false) total

-- `resize (n)` gives a valid vector of `n` zeros.
pub resize-HasBits : (n : ℕ) → HasBits (replicate n false) n (some (resize n))
resize-HasBits n = record {
  out = resize n;
  returns = refl;
  valid = resize-IsValid n;
  same_size = num_bits-resize n;
  holds = to_bits-resize n;
}

-- `intersect (b, result)` of vectors that are not empty, with any valid vector to write to, comes back with exactly what
-- `intersect (b)` makes of `a`.
pub intersect_into-intersect :
    (a b result : BitVector)
    → IsValid a
    → IsValid b
    → IsValid result
    → a.num_bits ≡ b.num_bits
    → 0 < a.num_bits
    → intersect_into a b result ≡ intersect a b
unfolding intersect intersect_into
intersect_into-intersect a b result va vb vr same some_bit =
    elim (Bool-cases (result.num_bits == b.num_bits)) [
      | inl fits_now ↦ rw fits_now (into result vr (omega (arith, (==_iff _ _).0 fits_now)))
      | inr other ↦ rw other (
          into (resize b.num_bits) (resize-IsValid b.num_bits)
            (num_bits-resize b.num_bits ∙ sym same))
    ]
  where
    into :
        (out : BitVector)
        → IsValid out
        → out.num_bits ≡ a.num_bits
        → compatible a b (
            write_words a.end_offset (full_words a) a.vec b.vec out.vec >>= λ words.
            some (record out { vec = words }))
          ≡ compatible a b (
              intersect_words a.end_offset (full_words a) a.vec b.vec >>= λ words.
              some (record a { vec = words }))
    into out vo size =
        let rounds = full_words_lem va some_bit in
        let out_fits : Fits a.end_offset (a.num_bits / 32) out.vec =
          other-Fits va vo (sym size) some_bit in
        let written =
          write_words_lem a.end_offset (a.num_bits / 32) a.vec b.vec out.vec (fits va)
            (other-Fits va vb same some_bit) out_fits in
        let ends : out.end_offset ≡ a.end_offset = omega (arith, vo.ends, va.ends) in
        compatible_lem _ va vb same
        ∙ rw rounds (
            rw written (
              ap (λ f. intersect_words a.end_offset (a.num_bits / 32) a.vec b.vec >>= f)
                (fun_ext (λ w. ap some (same_fields w size (vo.starts ∙ sym va.starts) ends)))))
        ∙ sym (compatible_lem _ va vb same)

starts_lem {ℓ} :
    {A : Type ℓ} {a : BitVector} (o : Option A)
    → IsValid a
    → (if a.start_offset == 0 then o else none) ≡ o
starts_lem o va = ground (arith, va.starts)

-- `count` of a valid vector that is not empty comes back with the number of its bits that are 1.
pub count-count_true :
    (a : BitVector) → IsValid a → 0 < a.num_bits → count a ≡ some (count_true (to_bits a))
unfolding count
count-count_true a va some_bit =
    let rounds = full_words_lem va some_bit in
    starts_lem {a = a} _ va
    ∙ rw rounds (
        count_words_lem a.end_offset (a.num_bits / 32) a.vec 0 (offset-lt va) (fits va) va.words
        ∙ ap some (omega arith))

-- `intersect_and_count` of two valid vectors of one size that is not 0 is `intersect` followed by `count`, and
-- `count_intersection` comes back with the number of indices at which both have a 1.
pub intersect_and_count_lem :
    (a b : BitVector)
    → IsValid a
    → IsValid b
    → a.num_bits ≡ b.num_bits
    → 0 < a.num_bits
    → (intersect_and_count a b
        ≡ (intersect a b >>= λ out. count out >>= λ total. some (total, out)))
      × (count_intersection a b ≡ some (count_true (zip_and (to_bits a) (to_bits b))))
unfolding intersect_and_count count_intersection intersect
intersect_and_count_lem a b va vb same some_bit = (
  compatible_lem _ va vb same
      ∙ ap (λ o. o >>= add_vector) counted
      ∙ sym (rw returns (rw total refl)),
  compatible_lem _ va vb same
      ∙ rw count_intersection_words_lem
          (rw counted (ap (λ bits. some (count_true bits)) (conjunction_bits va vb same some_bit))),
)
  where
    out : BitVector
    out = conjunction va vb same some_bit

    returns : intersect a b ≡ some out
    returns = intersect_returns va vb same some_bit

    total : count out ≡ some (count_true (to_bits out))
    total = count-count_true out (conjunction-IsValid va vb same some_bit) some_bit

    add_vector : ℕ × List ℕ → Option (ℕ × BitVector)
    add_vector result = some (result.0, record a { vec = result.1 })

    w :
        IsIntersection a.end_offset
          (a.num_bits / 32)
          a.vec
          b.vec
          (intersect_words a.end_offset (full_words a) a.vec b.vec)
    w = words_intersect va vb same some_bit

    counted :
        intersect_and_count_words a.end_offset (full_words a) a.vec b.vec 0
        ≡ some (count_true (to_bits out), out.vec)
    counted =
        let rounds = full_words_lem va some_bit in
        let summed =
          count_words_lem a.end_offset (a.num_bits / 32) w.out 0 (offset-lt va) (w.size ∙ fits va)
            w.words in
        let from_zero : 0 + count_true (to_bits out) ≡ count_true (to_bits out) = omega arith in
        rw rounds (
          intersect_and_count_words_lem a.end_offset (a.num_bits / 32) a.vec b.vec 0 (offset-lt va)
            (fits va) (other-Fits va vb same some_bit) va.words
          ∙ rw (← rounds)
              (rw w.returns (rw rounds (rw summed (ap (λ t. some (t, w.out)) from_zero)))))

module _ {a : BitVector} (v : IsValid a) (no_bit : a.num_bits ≡ 0) where
  no_words : a.vec ≡ []
  no_words = none_of a.vec (omega (arith, v.size, no_bit))
    where
      none_of : (l : List ℕ) → length l ≡ 0 → l ≡ []
      none_of [] h = refl
      none_of (w ∷ l) h = absurd (omega (arith, h))

  one_round : full_words a ≡ 1
  unfolding full_words
  one_round = rw no_words refl

-- Without a word every loop reads outside the vector.
pub intersect-empty :
    (a b : BitVector)
    → IsValid a
    → IsValid b
    → a.num_bits ≡ 0
    → b.num_bits ≡ 0
    → (intersect a b ≡ none) × (intersect_and_count a b ≡ none)
unfolding intersect intersect_and_count intersect_words intersect_and_count_words
intersect-empty a b va vb no_bit no_other = (
  compatible_lem _ va vb (no_bit ∙ sym no_other)
      ∙ rw (one_round va no_bit, no_words va no_bit) refl,
  compatible_lem _ va vb (no_bit ∙ sym no_other)
      ∙ rw (one_round va no_bit, no_words va no_bit) refl,
)
