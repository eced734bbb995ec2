-- ===== src/Bits/Count.antt =====
-- How many bits of a word are set, where the lowest one is, and that updates keep words in range.
use eotan.Prelude.{
  ℕ, zero, suc, ◌-◌, ◌/◌, ◌%◌, ◌^◌, ◌≤◌, ◌<◌, ◌≡◌, ◌≢◌, refl, true, false, arith, ltb,
}
use native.Mathlib.Nat.{pow-suc}
use eotan.Bits.{test_bit, set_bit, clear_bit, and_bits, count_ntz, count_bits}
use eotan.Bits.Laws.{double-half, pow_pos, test_bit_zero}

pub count_bits-set_bit :
    (n w k : ℕ) → k < n → test_bit w k ≡ false → count_bits n (set_bit w k) ≡ suc (count_bits n w)
unfolding test_bit set_bit count_bits
count_bits-set_bit zero w k h t = absurd (omega arith)
count_bits-set_bit (suc n) w zero h t = ground (arith, double-half (w / 2) 1)
count_bits-set_bit (suc n) w (suc k) h t =
    ground (arith, double-half (set_bit (w / 2) k) (w % 2), count_bits-set_bit n (w / 2) k)

pub count_bits-clear_bit :
    (n w k : ℕ) → k < n → test_bit w k ≡ true → suc (count_bits n (clear_bit w k)) ≡ count_bits n w
unfolding test_bit clear_bit count_bits
count_bits-clear_bit zero w k h t = absurd (omega arith)
count_bits-clear_bit (suc n) w zero h t = ground (arith, double-half (w / 2) 0)
count_bits-clear_bit (suc n) w (suc k) h t =
    ground (arith, double-half (clear_bit (w / 2) k) (w % 2), count_bits-clear_bit n (w / 2) k)

-- A word that is not 0 has its lowest set bit where `count_ntz` says.
pub count_ntz_lem :
    (n w : ℕ) → w < 2 ^ n → w ≢ 0 → (count_ntz n w < n) × (test_bit w (count_ntz n w) ≡ true)
unfolding test_bit count_ntz
count_ntz_lem zero w h z = absurd (z (omega arith))
count_ntz_lem (suc n) w h z = ground (arith, pow-suc 2 n, count_ntz_lem n (w / 2))

pub test_bit-count_ntz_below : (n w k : ℕ) → k < count_ntz n w → test_bit w k ≡ false
unfolding test_bit count_ntz
test_bit-count_ntz_below zero w k h = absurd (omega arith)
test_bit-count_ntz_below (suc n) w zero h = ground arith
test_bit-count_ntz_below (suc n) w (suc k) h = ground (arith, test_bit-count_ntz_below n (w / 2) k)

pub count_bits-zero : (n : ℕ) → count_bits n 0 ≡ 0
unfolding count_bits
count_bits-zero zero = refl
count_bits-zero (suc n) = omega (arith, count_bits-zero n)

pub count_bits_ne_zero : (n w : ℕ) → w < 2 ^ n → w ≢ 0 → 0 < count_bits n w
unfolding count_bits
count_bits_ne_zero zero w h z = absurd (z (omega arith))
count_bits_ne_zero (suc n) w h z = ground (arith, pow-suc 2 n, count_bits_ne_zero n (w / 2))

-- A bit of a word below `2 ^ n` is one of the low `n`.
pub lt-of-test_bit : (n w k : ℕ) → w < 2 ^ n → test_bit w k ≡ true → k < n
unfolding test_bit
lt-of-test_bit zero w zero h t = ground arith
lt-of-test_bit zero w (suc k) h t =
    absurd (omega (arith, lt-of-test_bit zero (w / 2) k (omega arith) t))
lt-of-test_bit (suc n) w zero h t = omega arith
lt-of-test_bit (suc n) w (suc k) h t =
    omega (arith, lt-of-test_bit n (w / 2) k (omega (arith, pow-suc 2 n)) t)

pub set_bit-lt : (n w k : ℕ) → k < n → w < 2 ^ n → set_bit w k < 2 ^ n
unfolding set_bit
set_bit-lt zero w k h b = absurd (omega arith)
set_bit-lt (suc n) w zero h b = omega (arith, pow-suc 2 n)
set_bit-lt (suc n) w (suc k) h b =
    omega (arith, pow-suc 2 n, set_bit-lt n (w / 2) k (omega arith) (omega (arith, pow-suc 2 n)))

pub clear_bit-le : (w k : ℕ) → clear_bit w k ≤ w
unfolding clear_bit
clear_bit-le w zero = omega arith
clear_bit-le w (suc k) = omega (arith, clear_bit-le (w / 2) k)

pub and_bits-lt : (n a b : ℕ) → and_bits n a b < 2 ^ n
unfolding and_bits
and_bits-lt zero a b = omega arith
and_bits-lt (suc n) a b = ground (arith, pow-suc 2 n, and_bits-lt n (a / 2) (b / 2))

pub pow-lt : (n k : ℕ) → k ≤ n → 2 ^ k - 1 < 2 ^ n
pow-lt n zero h = pow_pos n
pow-lt zero (suc k) h = absurd (omega arith)
pow-lt (suc n) (suc k) h =
    omega (arith, pow-suc 2 n, pow-suc 2 k, pow-lt n k (omega arith), pow_pos n, pow_pos k)

ones-half : (k : ℕ) → ((2 ^ suc k - 1) / 2 ≡ 2 ^ k - 1) × ((2 ^ suc k - 1) % 2 ≡ 1)
ones-half k = omega (arith, pow-suc 2 k, pow_pos k)

-- A mask of ones has as many bits as its width, and they are the low ones.
pub count_bits-ones : (n k : ℕ) → k ≤ n → count_bits n (2 ^ k - 1) ≡ k
unfolding count_bits
count_bits-ones zero zero h = refl
count_bits-ones zero (suc k) h = absurd (omega arith)
count_bits-ones (suc n) zero h = omega (arith, count_bits-zero n)
count_bits-ones (suc n) (suc k) h =
    rw ((ones-half k).0, (ones-half k).1) (omega (arith, count_bits-ones n k (omega arith)))

pub test_bit-ones : (k j : ℕ) → test_bit (2 ^ k - 1) j ≡ ltb j k
unfolding test_bit
test_bit-ones zero j = ground (arith, test_bit_zero j)
test_bit-ones (suc k) zero = rw (ones-half k).1 (ground arith)
test_bit-ones (suc k) (suc j) = rw (ones-half k).0 (ground (arith, test_bit-ones k j))

pub count_bits-le : (n w : ℕ) → count_bits n w ≤ n
unfolding count_bits
count_bits-le zero w = omega arith
count_bits-le (suc n) w = omega (arith, count_bits-le n (w / 2))
