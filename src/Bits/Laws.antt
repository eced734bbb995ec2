-- ===== src/Bits/Laws.antt =====
-- How the updates of single bits and the search for the lowest one read through `test_bit`.
use eotan.Prelude.{
  ℕ, zero, suc, ◌+◌, ◌-◌, ◌*◌, ◌/◌, ◌%◌, ◌^◌, ◌<◌, ◌≡◌, refl, true, false, ◌&&◌, arith, ◌==◌,
  if◌then◌else◌,
}
use native.Mathlib.Nat.{pow-suc}
use eotan.Bits.{test_bit, set_bit, clear_bit, and_bits}

pub double-half : (w : ℕ) (b : ℕ) → b < 2 → (w * 2 + b) / 2 ≡ w
double-half w b h = omega arith

-- Setting a bit sets that bit and no other.
pub test_bit-set_bit :
    (w k j : ℕ) → test_bit (set_bit w k) j ≡ (if k == j then true else test_bit w j)
unfolding test_bit set_bit
test_bit-set_bit w zero zero = ground arith
test_bit-set_bit w zero (suc j) = ground (arith, double-half (w / 2) 1)
test_bit-set_bit w (suc k) zero = ground arith
test_bit-set_bit w (suc k) (suc j) =
    ground (arith, double-half (set_bit (w / 2) k) (w % 2), test_bit-set_bit (w / 2) k j)

-- Clearing a bit clears that bit and no other.
pub test_bit-clear_bit :
    (w k j : ℕ) → test_bit (clear_bit w k) j ≡ (if k == j then false else test_bit w j)
unfolding test_bit clear_bit
test_bit-clear_bit w zero zero = ground arith
test_bit-clear_bit w zero (suc j) = ground (arith, double-half (w / 2) 0)
test_bit-clear_bit w (suc k) zero = ground arith
test_bit-clear_bit w (suc k) (suc j) =
    ground (arith, double-half (clear_bit (w / 2) k) (w % 2), test_bit-clear_bit (w / 2) k j)

pub test_bit-and_bits :
    (n a b k : ℕ) → k < n → test_bit (and_bits n a b) k ≡ (test_bit a k && test_bit b k)
unfolding test_bit and_bits
test_bit-and_bits zero a b k h = absurd (omega arith)
test_bit-and_bits (suc n) a b zero h = ground arith
test_bit-and_bits (suc n) a b (suc k) h = ground (
  arith,
  double-half (and_bits n (a / 2) (b / 2)) 0,
  double-half (and_bits n (a / 2) (b / 2)) 1,
  test_bit-and_bits n (a / 2) (b / 2) k,
)

-- A word below `2 ^ k` has no bit `k`.
pub test_bit_high : (w k : ℕ) → w < 2 ^ k → test_bit w k ≡ false
unfolding test_bit
test_bit_high w zero h = ground arith
test_bit_high w (suc k) h = test_bit_high (w / 2) k (omega (arith, pow-suc 2 k))

-- Where the bit is clear, `|` adds its value; where it is set, `& ~` takes it away.
pub set_bit-eq-add : (w k : ℕ) → test_bit w k ≡ false → set_bit w k ≡ w + 2 ^ k
unfolding test_bit set_bit
set_bit-eq-add w zero h = ground arith
set_bit-eq-add w (suc k) h = omega (arith, pow-suc 2 k, set_bit-eq-add (w / 2) k h)

pub clear_bit-add : (w k : ℕ) → test_bit w k ≡ true → clear_bit w k + 2 ^ k ≡ w
unfolding test_bit clear_bit
clear_bit-add w zero h = ground arith
clear_bit-add w (suc k) h = omega (arith, pow-suc 2 k, clear_bit-add (w / 2) k h)

pub test_bit_zero : (k : ℕ) → test_bit 0 k ≡ false
unfolding test_bit
test_bit_zero zero = refl
test_bit_zero (suc k) = test_bit_zero k

pub pow_pos : (n : ℕ) → 0 < 2 ^ n
pow_pos zero = omega arith
pow_pos (suc n) = omega (arith, pow-suc 2 n, pow_pos n)

-- A word under a mask of ones.
pub and_bits-ones : (n w : ℕ) → w < 2 ^ n → and_bits n w (2 ^ n - 1) ≡ w
unfolding and_bits
and_bits-ones zero w h = omega arith
and_bits-ones (suc n) w h =
    let half : (2 ^ suc n - 1) / 2 ≡ 2 ^ n - 1 = omega (arith, pow-suc 2 n) in
    let odd : (2 ^ suc n - 1) % 2 ≡ 1 = omega (arith, pow-suc 2 n, pow_pos n) in
    rw (half, odd) (ground (arith, and_bits-ones n (w / 2) (omega (arith, pow-suc 2 n))))
