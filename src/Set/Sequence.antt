-- ===== src/Set/Sequence.antt =====
-- The allocator of small numbers, lib/libnc/set/sequence.c and sequence_initialize.c.  A set bit
-- of `map` is a free number; `mask` hides the low bits of `map[clock_block]` that were searched.
pub mod Find
pub mod Laws
mod Tests
use eotan.Prelude.{
  ℕ, zero, suc, ◌+◌, ◌-◌, ◌*◌, ◌/◌, ◌%◌, ◌^◌, Bool, true, false, Option, none, some, List, ◌==◌,
  leb, ltb, ◌||◌, if◌then◌else◌, set,
}
use eotan.Bits.{test_bit, and_bits, count_ntz}
use eotan.Bitmap.{word, set_at, clear_at}

pub record Sequence : Type 0 where
  pub rest : ℕ
  pub clock_block : ℕ
  pub num_of_blocks : ℕ
  pub map : List ℕ
  pub mask : ℕ

-- `MAP_ALL_FREE` and the full mask
abbrev pub all_ones : ℕ
all_ones = 2 ^ 32 - 1

abbrev pub int_max : ℕ
int_max = 2 ^ 31 - 1

-- `s->map[i] = MAP_ALL_FREE` for the `rounds` blocks from `i` on
unfoldable pub fill : ℕ → ℕ → List ℕ → List ℕ
fill zero i map = map
fill (suc rounds) i map = fill rounds (i + 1) (set map i all_ones)

abbrev pub num_blocks : ℕ → ℕ
num_blocks max = (max + 31) / 32

-- `buf` is the memory for the map, or `none` for a null pointer; `none` is the result -1.
unfoldable pub initialize : ℕ → Option (List ℕ) → Option Sequence
unfolding fill
initialize max none = none
initialize max (some buf) =
    let blocks = num_blocks max in
    let map = fill blocks 0 buf in
    if max == 0 || ltb int_max max
    then none
    else some (record {
      rest = max;
      clock_block = 0;
      num_of_blocks = blocks;
      map = if max % 32 == 0 then map else set map (blocks - 1) (2 ^ (max % 32) - 1);
      mask = all_ones;
    })

-- `~((b << 1) - 1)` for `b = 1 << offset`, in 32 bits
unfoldable pub mask_above : ℕ → ℕ
mask_above offset = all_ones - (2 ^ offset * 2 % 2 ^ 32 + all_ones) % 2 ^ 32

-- `_find`; the result -1 is `none`.
unfoldable pub find : Sequence → ℕ → Option ℕ × Sequence
find s block =
    let bits = and_bits 32 (word s.map block) s.mask in
    let offset = count_ntz 32 bits in
    if bits == 0 then (none, record s { mask = all_ones }) else (
      some (block * 32 + offset),
      record s {
        rest = s.rest - 1;
        clock_block = block;
        map = clear_at s.map block offset;
        mask = mask_above offset;
      },
    )

-- A search that found nothing goes on from the state it left.
unfoldable pub or_else :
    (Sequence → Option ℕ × Sequence) → Option ℕ × Sequence → Option ℕ × Sequence
or_else next (some n, s) = (some n, s)
or_else next (none, s) = next s

-- The loops of `sequence_get`: the `rounds` blocks from `i` on, until one has a number.
unfoldable pub get_from : ℕ → ℕ → Sequence → Option ℕ × Sequence
unfolding or_else
get_from zero i s = (none, s)
get_from (suc rounds) i s = or_else (get_from rounds (i + 1)) (find s i)

-- The second loop's bound is read again after the first, which leaves `clock_block` alone.
unfoldable pub get : Sequence → Option ℕ × Sequence
unfolding get_from or_else
get s =
    if ltb 0 s.rest
    then or_else (λ s'. get_from (s'.clock_block + 1) 0 s')
        (get_from (s.num_of_blocks - s.clock_block) s.clock_block s)
    else (none, s)

-- `n` is the bit pattern of the argument.
pub release : Sequence → ℕ → Sequence
release s n =
    let block = n / 32 in
    if leb s.num_of_blocks block
    then s
    else if test_bit (word s.map block) (n % 32)
    then s
    else record s {
      map = set_at s.map block (n % 32);
      clock_block = if s.rest == 0 then block else s.clock_block;
      mask = if s.rest == 0 then all_ones else s.mask;
      rest = s.rest + 1;
    }
