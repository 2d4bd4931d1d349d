-- ===== src/BitVector/Runs.antt =====
-- Runs of src/bitdrill/Bit_Vector.hxx on vectors of 40 bits.
use bitdrill.Base.{◌≡◌, ◌/◌, ◌&&◌, leb, false, refl, true, some, none, [], ◌∷◌, arith}
use bitdrill.Base.{zip_and, count_true, if◌then◌else◌, ◌==◌, ◌>>=◌}
use bitdrill.Base.Bits.{bits_of}
use bitdrill.BitVector.{
  BitVector, resize, get, set_bit, unset, numbits, intersect, count, intersect_and_count,
  count_intersection, intersect_words, full_words, count_words,
}
use bitdrill.BitVector.Popcount.{numbits_lem}
use bitdrill.BitVector.Laws.{
  IsValid, HasBits, to_bits, intersect-HasBits, count-count_true, intersect_and_count_lem,
}
use bitdrill.BitVector.Access.{IsUpdate, unset-IsUpdate, set_bit-IsUpdate}

abbrev evens : BitVector
evens = record { num_bits = 40; start_offset = 0; end_offset = 8; vec = 0x55555555 ∷ 0x55 ∷ [] }

abbrev lows : BitVector
lows = record { num_bits = 40; start_offset = 0; end_offset = 8; vec = 0xffff ∷ 0xff ∷ [] }

abbrev short : BitVector
short = record { num_bits = 8; start_offset = 0; end_offset = 8; vec = 3 ∷ [] }

evens-IsValid : IsValid evens
evens-IsValid = record { starts = refl; ends = refl; size = refl; words = omega arith }

lows-IsValid : IsValid lows
lows-IsValid = record { starts = refl; ends = refl; size = refl; words = omega arith }

short-IsValid : IsValid short
short-IsValid = record { starts = refl; ends = refl; size = refl; words = omega arith }

count-evens : count evens ≡ some 20
unfolding count count_words full_words numbits
count-evens = refl

intersect_runs :
    intersect evens lows
    ≡ some (record { num_bits = 40; start_offset = 0; end_offset = 8; vec = 0x5555 ∷ 0x55 ∷ [] })
unfolding intersect intersect_words full_words
intersect_runs = refl

sizes_differ : intersect evens short ≡ none
unfolding intersect
sizes_differ = refl

-- An empty vector has no word to read.
empty_fails : count (resize 0) ≡ none
unfolding count count_words full_words resize
empty_fails = refl

-- `unset (6)` in 1111 1111 leaves only the bit at 7.
unset_runs :
    unset (record { num_bits = 8; start_offset = 0; end_offset = 8; vec = 0xff ∷ [] }) 6
    ≡ some (record { num_bits = 8; start_offset = 0; end_offset = 8; vec = 0x80 ∷ [] })
unfolding unset
unset_runs = refl

numbits_example : numbits 0xf0f0f0f1 ≡ count_true (bits_of 32 0xf0f0f0f1)
numbits_example = numbits_lem 0xf0f0f0f1 (omega arith)

intersect-HasBits_example :
    HasBits (zip_and (to_bits evens) (to_bits lows)) 40 (intersect evens lows)
intersect-HasBits_example =
    intersect-HasBits evens lows evens-IsValid lows-IsValid refl (omega arith)

count-count_true_example : count evens ≡ some (count_true (to_bits evens))
count-count_true_example = count-count_true evens evens-IsValid (omega arith)

intersect_and_count_example :
    (intersect_and_count evens lows
      ≡ (intersect evens lows >>= λ out. count out >>= λ total. some (total, out)))
    × (count_intersection evens lows ≡ some (count_true (zip_and (to_bits evens) (to_bits lows))))
intersect_and_count_example =
    intersect_and_count_lem evens lows evens-IsValid lows-IsValid refl (omega arith)

unset-IsUpdate_example :
    IsUpdate evens
      (λ j. if (36 / 32 == j / 32) && leb j 36 then some false else get evens j)
      (unset evens 36)
unset-IsUpdate_example = unset-IsUpdate evens 36 evens-IsValid (omega arith)

set_bit-IsUpdate_example :
    IsUpdate evens (λ j. if 33 == j then some true else get evens j) (set_bit evens 33)
set_bit-IsUpdate_example = set_bit-IsUpdate evens 33 evens-IsValid (omega arith)
