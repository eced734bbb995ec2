-- ===== src/Bits.antt =====
-- Bits of an unsigned word, low bit first, as the kernel's maps use them: `w & 1 << k`,
-- `w | 1 << k`, `w & ~(1 << k)`, `a & b` and `count_ntz` (include/i686/mpu/bits.h).
pub mod Laws
pub mod Count
use eotan.Prelude.{ℕ, zero, suc, ◌+◌, ◌*◌, ◌/◌, ◌%◌, Bool, true, false, ◌&&◌, ◌==◌, if◌then◌else◌}

abbrev pub is_odd : ℕ → Bool
is_odd w = w % 2 == 1

-- `w & 1 << k`, as a truth value
unfoldable pub test_bit : ℕ → ℕ → Bool
test_bit w zero = is_odd w
test_bit w (suc k) = test_bit (w / 2) k

-- `w | 1 << k`
unfoldable pub set_bit : ℕ → ℕ → ℕ
set_bit w zero = w / 2 * 2 + 1
set_bit w (suc k) = set_bit (w / 2) k * 2 + w % 2

-- `w & ~(1 << k)`
unfoldable pub clear_bit : ℕ → ℕ → ℕ
clear_bit w zero = w / 2 * 2
clear_bit w (suc k) = clear_bit (w / 2) k * 2 + w % 2

-- `a & b` over the low `n` bits
unfoldable pub and_bits : ℕ → ℕ → ℕ → ℕ
and_bits zero a b = 0
and_bits (suc n) a b = and_bits n (a / 2) (b / 2) * 2 + (if is_odd a && is_odd b then 1 else 0)

-- The number of trailing zeros of a word of `n` bits; of 0 it is `n`.
unfoldable pub count_ntz : ℕ → ℕ → ℕ
count_ntz zero w = 0
count_ntz (suc n) w = let more = count_ntz n (w / 2) in if is_odd w then 0 else suc more

-- The number of set bits among the low `n`.
unfoldable pub count_bits : ℕ → ℕ → ℕ
count_bits zero w = 0
count_bits (suc n) w = w % 2 + count_bits n (w / 2)
