-- ===== src/Set/Sequence/Tests.antt =====
-- The allocator of numbers at work, and its theorems at concrete sequences.
use eotan.Prelude.{
  ℕ, ◌-◌, ◌*◌, ◌^◌, ◌≡◌, refl, true, some, [], ◌∷◌, arith, ◌==◌, ◌&&◌, ltb, if◌then◌else◌,
}
use eotan.Bits.{clear_bit, and_bits, count_ntz, count_bits}
use eotan.Bitmap.{bit_at, clear_at, count}
use eotan.Set.Sequence.{Sequence, initialize, get, release, find, mask_above}
use eotan.Set.Sequence.Laws.{IsValid, Granted, initialize_lem, get-Granted, release_lem}

-- 5 and 33 are free, and the search stands past 5.
abbrev two_left : Sequence
two_left = record {
  rest = 2;
  clock_block = 0;
  num_of_blocks = 2;
  map = 32 ∷ 2 ∷ [];
  mask = 2 ^ 32 - 64;
}

two_left-IsValid : IsValid two_left
unfolding count count_bits
two_left-IsValid = record { words = omega arith; size = refl; clock = omega arith; counted = refl }

-- The search goes on behind the number that it gave last, and wraps round.
get_goes_on : ((get two_left).0 ≡ some 33) × ((get (get two_left).1).0 ≡ some 5)
unfolding get find and_bits count_ntz clear_at clear_bit mask_above
get_goes_on = (refl, refl)

initialize_lem_example :
    (s : Sequence) × (initialize 40 (some (7 ∷ 7 ∷ [])) ≡ some s)
    × IsValid s
    × (s.rest ≡ 40)
    × ((n : ℕ) → bit_at s.map n ≡ ltb n 40)
initialize_lem_example = initialize_lem 40 (7 ∷ 7 ∷ []) (λ e. omega arith) (omega arith) refl

get-Granted_example : (n : ℕ) × ((get two_left).0 ≡ some n) × Granted two_left n (get two_left).1
get-Granted_example = get-Granted two_left two_left-IsValid (omega arith)

release_lem_example :
    IsValid (release two_left 7)
    × ((m : ℕ)
        → bit_at (release two_left 7).map m
          ≡ (if 7 == m && ltb m (2 * 32) then true else bit_at two_left.map m))
release_lem_example = release_lem two_left 7 two_left-IsValid
