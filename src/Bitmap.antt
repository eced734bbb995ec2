-- ===== src/Bitmap.antt =====
-- Arrays of 32-bit words read as one string of bits: `map` of kernel/palloc.c and
-- lib/libnc/set/sequence.c.  Bit `n` is bit `n % 32` of word `n / 32`; a set bit is a free number.
use eotan.Prelude.{
  ℕ, zero, suc, ◌+◌, ◌-◌, ◌*◌, ◌/◌, ◌%◌, ◌^◌, ◌<◌, ◌≡◌, refl, ap, Bool, true, false, List, [], ◌∷◌,
  arith, ◌==◌, if◌then◌else◌, length, get_or, set, length-set,
}
use eotan.Bits.{test_bit, set_bit, clear_bit, count_bits}
use eotan.Bits.Laws.{test_bit-set_bit, test_bit-clear_bit, test_bit_zero}
use eotan.Bits.Count.{
  count_bits-set_bit, count_bits-clear_bit, count_bits-zero, count_bits_ne_zero, count_bits-ones,
  set_bit-lt, clear_bit-le,
}

abbrev pub int_bit : ℕ
int_bit = 32

-- `map[i]`; every access of the code is within bounds, which its invariants state.
abbrev pub word : List ℕ → ℕ → ℕ
word map i = get_or map i 0

unfoldable pub bit_at : List ℕ → ℕ → Bool
bit_at map n = test_bit (word map (n / int_bit)) (n % int_bit)

-- `map[i] |= 1 << k`
unfoldable pub set_at : List ℕ → ℕ → ℕ → List ℕ
set_at map i k = set map i (set_bit (word map i) k)

-- `map[i] &= ~(1 << k)`
unfoldable pub clear_at : List ℕ → ℕ → ℕ → List ℕ
clear_at map i k = set map i (clear_bit (word map i) k)

-- The number of set bits.
unfoldable pub count : List ℕ → ℕ
count [] = 0
count (w ∷ map) = count_bits 32 w + count map

-- Every word is a 32-bit word.
abbrev pub AreWords : List ℕ → Type 0
AreWords [] = Unit {0}
AreWords (w ∷ map) = (w < 2 ^ 32) × AreWords map

pub get_or-set :
    (xs : List ℕ) (i j v : ℕ)
    → i < length xs
    → get_or (set xs i v) j 0 ≡ (if i == j then v else get_or xs j 0)
get_or-set [] i j v h = absurd (omega arith)
get_or-set (x ∷ xs) zero zero v h = ground arith
get_or-set (x ∷ xs) zero (suc j) v h = ground arith
get_or-set (x ∷ xs) (suc i) zero v h = ground arith
get_or-set (x ∷ xs) (suc i) (suc j) v h = ground (arith, get_or-set xs i j v)

pub word-lt : (map : List ℕ) (i : ℕ) → AreWords map → word map i < 2 ^ 32
word-lt [] i h = omega arith
word-lt (w ∷ map) zero h = h.0
word-lt (w ∷ map) (suc i) h = word-lt map i h.1

pub set-AreWords : (map : List ℕ) (i v : ℕ) → v < 2 ^ 32 → AreWords map → AreWords (set map i v)
set-AreWords [] i v b h = tt
set-AreWords (w ∷ map) zero v b h = (b, h.1)
set-AreWords (w ∷ map) (suc i) v b h = (h.0, set-AreWords map i v b h.1)

pub set_at-AreWords : (map : List ℕ) (i k : ℕ) → k < 32 → AreWords map → AreWords (set_at map i k)
unfolding set_at
set_at-AreWords map i k h w =
    set-AreWords map i (set_bit (word map i) k) (set_bit-lt 32 _ k h (word-lt map i w)) w

pub clear_at-AreWords : (map : List ℕ) (i k : ℕ) → AreWords map → AreWords (clear_at map i k)
unfolding clear_at
clear_at-AreWords map i k w =
    set-AreWords map i (clear_bit (word map i) k)
      (omega (arith, clear_bit-le (word map i) k, word-lt map i w)) w

pub length-set_at : (map : List ℕ) (i k : ℕ) → length (set_at map i k) ≡ length map
unfolding set_at
length-set_at map i k = length-set map i (set_bit (word map i) k)

pub length-clear_at : (map : List ℕ) (i k : ℕ) → length (clear_at map i k) ≡ length map
unfolding clear_at
length-clear_at map i k = length-set map i (clear_bit (word map i) k)

-- Bit `k` of word `i` changes, and no other.
pub bit_at-set_at :
    (map : List ℕ) (i k n : ℕ)
    → i < length map
    → k < 32
    → bit_at (set_at map i k) n ≡ (if i * 32 + k == n then true else bit_at map n)
unfolding bit_at set_at
bit_at-set_at map i k n h b = ground (
  arith,
  get_or-set map i (n / 32) (set_bit (word map i) k),
  test_bit-set_bit (word map i) k (n % 32),
)

pub bit_at-clear_at :
    (map : List ℕ) (i k n : ℕ)
    → i < length map
    → k < 32
    → bit_at (clear_at map i k) n ≡ (if i * 32 + k == n then false else bit_at map n)
unfolding bit_at clear_at
bit_at-clear_at map i k n h b = ground (
  arith,
  get_or-set map i (n / 32) (clear_bit (word map i) k),
  test_bit-clear_bit (word map i) k (n % 32),
)

pub count-set :
    (map : List ℕ) (i v : ℕ)
    → i < length map
    → count (set map i v) + count_bits 32 (word map i) ≡ count map + count_bits 32 v
unfolding count
count-set [] i v h = absurd (omega arith)
count-set (w ∷ map) zero v h = omega arith
count-set (w ∷ map) (suc i) v h = omega (arith, count-set map i v)

pub count-set_at :
    (map : List ℕ) (i k : ℕ)
    → i < length map
    → k < 32
    → test_bit (word map i) k ≡ false
    → count (set_at map i k) ≡ suc (count map)
unfolding set_at
count-set_at map i k h b t =
    omega
      (arith, count-set map i (set_bit (word map i) k) h, count_bits-set_bit 32 (word map i) k b t)

pub count-clear_at :
    (map : List ℕ) (i k : ℕ)
    → i < length map
    → k < 32
    → test_bit (word map i) k ≡ true
    → suc (count (clear_at map i k)) ≡ count map
unfolding clear_at
count-clear_at map i k h b t = omega (
  arith,
  count-set map i (clear_bit (word map i) k) h,
  count_bits-clear_bit 32 (word map i) k b t,
)

-- Nothing is set where nothing is counted.
pub zero_of_count : (map : List ℕ) (i : ℕ) → AreWords map → count map ≡ 0 → word map i ≡ 0
unfolding count
zero_of_count [] i h c = refl
zero_of_count (w ∷ map) zero h c = ground (arith, count_bits_ne_zero 32 w h.0)
zero_of_count (w ∷ map) (suc i) h c = zero_of_count map i h.1 (omega arith)

-- The other words stay as they are.
pub word-set_at :
    (map : List ℕ) (i k j : ℕ)
    → i < length map
    → word (set_at map i k) j ≡ (if i == j then set_bit (word map i) k else word map j)
unfolding set_at
word-set_at map i k j h = get_or-set map i j (set_bit (word map i) k) h

pub word-clear_at :
    (map : List ℕ) (i k j : ℕ)
    → i < length map
    → word (clear_at map i k) j ≡ (if i == j then clear_bit (word map i) k else word map j)
unfolding clear_at
word-clear_at map i k j h = get_or-set map i j (clear_bit (word map i) k) h

pub bit_at_lem :
    (map : List ℕ) (i k : ℕ) → k < 32 → bit_at map (i * 32 + k) ≡ test_bit (word map i) k
unfolding bit_at
bit_at_lem map i k h =
    let div : (i * 32 + k) / 32 ≡ i = omega arith in
    let rem : (i * 32 + k) % 32 ≡ k = omega arith in rw (div, rem)

pub count_none : (map : List ℕ) → ((i : ℕ) → i < length map → word map i ≡ 0) → count map ≡ 0
unfolding count
count_none [] h = refl
count_none (w ∷ map) h = omega (
  arith,
  count_bits-zero 32,
  ap (count_bits 32) (h 0 (omega arith)),
  count_none map (λ i p. h (suc i) (omega arith)),
)

word_bound : (map : List ℕ) (i k : ℕ) → test_bit (word map i) k ≡ true → i < length map
word_bound [] i k h = cc (test_bit_zero k)
word_bound (w ∷ map) zero k h = omega arith
word_bound (w ∷ map) (suc i) k h = omega (arith, word_bound map i k h)

-- A set bit stands in a word of the map.
pub bit_at_bound : (map : List ℕ) (n : ℕ) → bit_at map n ≡ true → n < length map * 32
unfolding bit_at
bit_at_bound map n h = omega (arith, word_bound map (n / 32) (n % 32) h)

pub AreWords-word : (map : List ℕ) → ((i : ℕ) → i < length map → word map i < 2 ^ 32) → AreWords map
AreWords-word [] h = tt
AreWords-word (w ∷ map) h = (h 0 (omega arith), AreWords-word map (λ i p. h (suc i) (omega arith)))

-- Every bit of every word is counted.
pub count_full :
    (map : List ℕ)
    → ((i : ℕ) → i < length map → word map i ≡ 2 ^ 32 - 1)
    → count map ≡ 32 * length map
unfolding count
count_full [] h = refl
count_full (w ∷ map) h = omega (
  arith,
  count_bits-ones 32 32 (omega arith),
  ap (count_bits 32) (h 0 (omega arith)),
  count_full map (λ i p. h (suc i) (omega arith)),
)
