-- ===== src/BitVector/Words.antt =====
-- The word loops of src/bitdrill/Bit_Vector.hxx against lists of bits: `n` full words and, where
-- `e` is not 0, one more word of which the `e` lowest bits count.
use bitdrill.Base.{ℕ, zero, suc, ◌+◌, ◌^◌, ◌<◌, min, bit_and, bit_or, ◌≡◌, refl, ap, ap₂, ◌∙◌}
use bitdrill.Base.{Bool, Option, some, none, List, [], ◌∷◌, ◌++◌, arith, sym}
use bitdrill.Base.{
  length, All, count_true, zip_and, count_true-append, zip_and-append, ◌>>=◌, suc-ne-zero,
}
use bitdrill.Base.Bits.{bits_of, length-bits_of, bits_of-bit_and, bit_and-le}
use bitdrill.Base.Masks.{
  high_mask, complement, high_mask_lem, complement-high_mask, bits_of-bit_or_high,
  count_true-low_mask,
}
use bitdrill.BitVector.{
  numbits, intersect_words, write_words, count_words, intersect_and_count_words,
  count_intersection_words,
}
use bitdrill.BitVector.Popcount.{numbits_lem}

abbrev pub IsWord : ℕ → Type 0
IsWord w = w < 2 ^ 32

-- The bits that the words stand for, in the order of their indices.
abbrev pub digits : ℕ → ℕ → List ℕ → List Bool
digits e zero [] = []
digits e zero (w ∷ ws) = bits_of e w
digits e (suc n) [] = []
digits e (suc n) (w ∷ ws) = bits_of 32 w ++ digits e n ws

-- As many words as the loops read.
abbrev pub Fits : ℕ → ℕ → List ℕ → Type 0
Fits e n l = length l ≡ n + min e 1

-- The low bits of the last word are those of the conjunction.
bits_of-masked :
    (e a b : ℕ)
    → e < 32
    → bits_of e (bit_and a (bit_or b (high_mask e))) ≡ zip_and (bits_of e a) (bits_of e b)
bits_of-masked e a b h =
    bits_of-bit_and e a (bit_or b (high_mask e))
    ∙ ap (zip_and (bits_of e a))
        (ap (λ m. bits_of e (bit_or b m)) (high_mask_lem e h) ∙ bits_of-bit_or_high e b _)

numbits-masked :
    (e a : ℕ)
    → e < 32
    → IsWord a
    → numbits (bit_and a (complement (high_mask e))) ≡ count_true (bits_of e a)
numbits-masked e a h w =
    numbits_lem _ (omega (arith, bit_and-le a a (complement (high_mask e)) (omega arith)))
    ∙ ap (λ m. count_true (bits_of 32 (bit_and a m))) (complement-high_mask e h)
    ∙ count_true-low_mask 32 e a (omega arith)

-- What the loop of `intersect` leaves in the words.
pub record IsIntersection (e n : ℕ) (l r : List ℕ) (result : Option (List ℕ)) : Type 0 where
  pub out : List ℕ
  pub returns : result ≡ some out
  pub bits : digits e n out ≡ zip_and (digits e n l) (digits e n r)
  pub size : length out ≡ length l
  pub words : All IsWord out

pub intersect_words_lem :
    (e n : ℕ) (l r : List ℕ)
    → e < 32
    → Fits e n l
    → Fits e n r
    → All IsWord l
    → IsIntersection e n l r (intersect_words e n l r)
unfolding intersect_words
intersect_words_lem zero zero [] [] h fl fr w = record {
  out = [];
  returns = refl;
  bits = refl;
  size = refl;
  words = tt;
}
intersect_words_lem zero zero (a ∷ l) r h fl fr w = absurd (omega arith)
intersect_words_lem zero zero [] (b ∷ r) h fl fr w = absurd (omega arith)
intersect_words_lem (suc e) zero [] r h fl fr w = absurd (omega arith)
intersect_words_lem (suc e) zero (a ∷ l) [] h fl fr w = absurd (omega arith)
intersect_words_lem (suc e) zero (a ∷ l) (b ∷ r) h fl fr w = record {
  out = bit_and a (bit_or b (high_mask (suc e))) ∷ l;
  returns = rw suc-ne-zero;
  bits = bits_of-masked (suc e) a b h;
  size = refl;
  words = (omega (arith, bit_and-le a a (bit_or b (high_mask (suc e))) (omega arith), w.0), w.1);
}
intersect_words_lem e (suc n) [] r h fl fr w = absurd (omega arith)
intersect_words_lem e (suc n) (a ∷ l) [] h fl fr w = absurd (omega arith)
intersect_words_lem e (suc n) (a ∷ l) (b ∷ r) h fl fr w =
    let rest = intersect_words_lem e n l r h (omega arith) (omega arith) w.1 in
    let same = length-bits_of 32 a ∙ sym (length-bits_of 32 b) in
    record {
      out = bit_and a b ∷ rest.out;
      returns = rw rest.returns;
      bits =
          ap₂ ◌++◌ (bits_of-bit_and 32 a b) rest.bits
          ∙ sym (zip_and-append (bits_of 32 a) (bits_of 32 b) _ _ same);
      size = ap suc rest.size;
      words = (omega (arith, bit_and-le a a b (omega arith), w.0), rest.words);
    }

both_empty : (xs ys : List ℕ) → length xs ≡ 0 → length ys ≡ 0 → xs ≡ ys
both_empty [] [] h g = refl
both_empty [] (y ∷ ys) h g = absurd (omega arith)
both_empty (x ∷ xs) ys h g = absurd (omega arith)

-- Writing elsewhere gives the words that intersecting in place leaves.
pub write_words_lem :
    (e n : ℕ) (l r out : List ℕ)
    → Fits e n l
    → Fits e n r
    → Fits e n out
    → write_words e n l r out ≡ intersect_words e n l r
unfolding write_words intersect_words
write_words_lem zero zero [] [] [] fl fr fo = refl
write_words_lem zero zero (a ∷ l) r out fl fr fo = absurd (omega arith)
write_words_lem zero zero [] (b ∷ r) out fl fr fo = absurd (omega arith)
write_words_lem zero zero [] [] (c ∷ out) fl fr fo = absurd (omega arith)
write_words_lem (suc e) zero [] r out fl fr fo = absurd (omega arith)
write_words_lem (suc e) zero (a ∷ l) [] out fl fr fo = absurd (omega arith)
write_words_lem (suc e) zero (a ∷ l) (b ∷ r) [] fl fr fo = absurd (omega arith)
write_words_lem (suc e) zero (a ∷ l) (b ∷ r) (c ∷ out) fl fr fo =
    let same = both_empty out l (omega arith) (omega arith) in
    rw suc-ne-zero (ap (λ t. some (bit_and a (bit_or b (high_mask (suc e))) ∷ t)) same)
write_words_lem e (suc n) [] r out fl fr fo = absurd (omega arith)
write_words_lem e (suc n) (a ∷ l) [] out fl fr fo = absurd (omega arith)
write_words_lem e (suc n) (a ∷ l) (b ∷ r) [] fl fr fo = absurd (omega arith)
write_words_lem e (suc n) (a ∷ l) (b ∷ r) (c ∷ out) fl fr fo =
    let same = write_words_lem e n l r out (omega arith) (omega arith) (omega arith) in rw same

pub count_words_lem :
    (e n : ℕ) (l : List ℕ) (c : ℕ)
    → e < 32
    → Fits e n l
    → All IsWord l
    → count_words e n l c ≡ some (c + count_true (digits e n l))
unfolding count_words
count_words_lem zero zero [] c h fl w = ap some (omega arith)
count_words_lem zero zero (a ∷ l) c h fl w = absurd (omega arith)
count_words_lem (suc e) zero [] c h fl w = absurd (omega arith)
count_words_lem (suc e) zero (a ∷ l) c h fl w =
    rw suc-ne-zero (ap (λ t. some (c + t)) (numbits-masked (suc e) a h w.0))
count_words_lem e (suc n) [] c h fl w = absurd (omega arith)
count_words_lem e (suc n) (a ∷ l) c h fl w =
    count_words_lem e n l (c + numbits a) h (omega arith) w.1
    ∙ ap some (omega (arith, numbits_lem a w.0, count_true-append (bits_of 32 a) (digits e n l)))

abbrev count_after : ℕ → ℕ → ℕ → List ℕ → Option (ℕ × List ℕ)
count_after e n c out = do total ← count_words e n out c; some (total, out)

abbrev add_word : ℕ → ℕ × List ℕ → Option (ℕ × List ℕ)
add_word w (total, out) = some (total, w ∷ out)

-- `intersect_and_count` is `intersect` and then `count`, in one pass.
pub intersect_and_count_words_lem :
    (e n : ℕ) (l r : List ℕ) (c : ℕ)
    → e < 32
    → Fits e n l
    → Fits e n r
    → All IsWord l
    → intersect_and_count_words e n l r c ≡ (intersect_words e n l r >>= count_after e n c)
unfolding intersect_and_count_words intersect_words count_words
intersect_and_count_words_lem zero zero l r c h fl fr w = refl
intersect_and_count_words_lem (suc e) zero [] r c h fl fr w = absurd (omega arith)
intersect_and_count_words_lem (suc e) zero (a ∷ l) [] c h fl fr w = absurd (omega arith)
intersect_and_count_words_lem (suc e) zero (a ∷ l) (b ∷ r) c h fl fr w =
    rw suc-ne-zero (rw suc-ne-zero)
intersect_and_count_words_lem e (suc n) [] r c h fl fr w = absurd (omega arith)
intersect_and_count_words_lem e (suc n) (a ∷ l) [] c h fl fr w = absurd (omega arith)
intersect_and_count_words_lem e (suc n) (a ∷ l) (b ∷ r) c h fl fr w =
    ap (λ o. o >>= add_word (bit_and a b))
      (intersect_and_count_words_lem e n l r (c + numbits (bit_and a b)) h (omega arith)
        (omega arith) w.1)
    ∙ regroup (intersect_words e n l r)
  where
    counted :
        (out : List ℕ) (o : Option ℕ)
        → ((do t ← o; some (t, out)) >>= add_word (bit_and a b))
          ≡ (do t ← o; some (t, bit_and a b ∷ out))
    counted out none = refl
    counted out (some t) = refl

    regroup :
        (o : Option (List ℕ))
        → (o >>= count_after e n (c + numbits (bit_and a b)) >>= add_word (bit_and a b))
          ≡ ((do rest ← o; some (bit_and a b ∷ rest)) >>= count_after e (suc n) c)
    regroup none = refl
    regroup (some out) = counted out (count_words e n out (c + numbits (bit_and a b)))

abbrev pub forget_words : ℕ × List ℕ → Option ℕ
forget_words (total, out) = some total

-- `count_intersection` is `intersect_and_count` without the words.
pub count_intersection_words_lem :
    (e n : ℕ) (l r : List ℕ) (c : ℕ)
    → count_intersection_words e n l r c ≡ (intersect_and_count_words e n l r c >>= forget_words)
unfolding intersect_and_count_words count_intersection_words
count_intersection_words_lem zero zero l r c = refl
count_intersection_words_lem (suc e) zero [] r c = rw suc-ne-zero
count_intersection_words_lem (suc e) zero (a ∷ l) [] c = rw suc-ne-zero
count_intersection_words_lem (suc e) zero (a ∷ l) (b ∷ r) c = rw suc-ne-zero
count_intersection_words_lem e (suc n) [] r c = refl
count_intersection_words_lem e (suc n) (a ∷ l) [] c = refl
count_intersection_words_lem e (suc n) (a ∷ l) (b ∷ r) c =
    count_intersection_words_lem e n l r (c + numbits (bit_and a b))
    ∙ forget (intersect_and_count_words e n l r (c + numbits (bit_and a b)))
  where
    forget :
        (o : Option (ℕ × List ℕ))
        → (o >>= forget_words) ≡ (o >>= add_word (bit_and a b) >>= forget_words)
    forget none = refl
    forget (some result) = refl
