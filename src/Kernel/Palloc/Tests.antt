-- ===== src/Kernel/Palloc/Tests.antt =====
-- The page allocator at work, and its theorems at concrete memory maps.
use eotan.Prelude.{
  ℕ, ◌+◌, ◌*◌, ◌^◌, ◌<◌, ◌≡◌, refl, true, some, [], ◌∷◌, arith, ◌==◌, ◌&&◌, ltb, if◌then◌else◌,
}
use eotan.Bits.{set_bit, count_ntz, count_bits}
use eotan.Bitmap.{word, bit_at, count}
use eotan.Kernel.Palloc.{Memory, palloc, pfree}
use eotan.Kernel.Palloc.Invariant.{IsValid}
use eotan.Kernel.Palloc.Laws.{page_of, Granted, palloc-Granted, pfree_lem, pfree-palloc}

-- Pages 35 and 36 are free.
abbrev two_left : Memory
two_left = record {
  mm = record {
    rest_pages = 2;
    clock_block = 1;
    num_blocks = 2;
    max_pages = 64;
    map = 0 ∷ 24 ∷ [];
  };
  mem = λ a. a;
}

below-two_left : (i : ℕ) → i < 1 → word two_left.mm.map i ≡ 0
below-two_left i h = ground arith

two_left-IsValid : IsValid two_left.mm
unfolding count count_bits
two_left-IsValid = record {
  words = omega arith;
  size = refl;
  small = omega arith;
  counted = refl;
  clock = omega arith;
  below_clock = below-two_left;
}

-- The address of page 35 in the kernel's half of the address space.
palloc-two_left : (palloc two_left).0 ≡ some (2 ^ 31 + 35 * 4096)
unfolding palloc count_ntz set_bit
palloc-two_left = refl

palloc-Granted_example :
    (addr : ℕ) × ((palloc two_left).0 ≡ some addr) × Granted two_left addr (palloc two_left).1
palloc-Granted_example = palloc-Granted two_left two_left-IsValid (omega arith)

pfree_lem_example :
    IsValid (palloc two_left).1.mm
    × IsValid (pfree (2 ^ 31 + 4096) two_left).mm
    × ((n : ℕ)
        → bit_at (pfree (2 ^ 31 + 4096) two_left).mm.map n ≡ (
            if page_of (2 ^ 31 + 4096) == n && ltb n (2 * 32)
            then true
            else bit_at two_left.mm.map n))
pfree_lem_example = pfree_lem (2 ^ 31 + 4096) two_left two_left-IsValid

pfree-palloc_example :
    (addr : ℕ) × ((palloc two_left).0 ≡ some addr)
    × ((n : ℕ) → bit_at (pfree addr (palloc two_left).1).mm.map n ≡ bit_at two_left.mm.map n)
    × ((pfree addr (palloc two_left).1).mm.rest_pages ≡ two_left.mm.rest_pages)
pfree-palloc_example = pfree-palloc two_left two_left-IsValid (omega arith)
