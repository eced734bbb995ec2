-- ===== src/Kernel/Palloc/Invariant.antt =====
-- What holds of the memory map between two calls, and that `palloc` and `pfree` keep it.
use eotan.Prelude.{
  ℕ, zero, suc, ◌+◌, ◌-◌, ◌^◌, ◌≤◌, ◌<◌, ◌≡◌, ◌≢◌, refl, true, Option, none, some, arith, ◌==◌,
  length, Bool-cases, inl, inr,
}
use eotan.Bits.{test_bit, count_ntz}
use eotan.Bits.Count.{count_ntz_lem}
use eotan.Bitmap.{
  AreWords, count, word, word-lt, length-clear_at, clear_at-AreWords, count-clear_at, zero_of_count,
  word-clear_at,
}
use eotan.Kernel.Palloc.{
  MemoryMap, Memory, palloc_from, take_page, palloc, kern_p2v, page_addr, pzero,
}

-- `rest_pages` counts the free pages, and no page below `clock_block` is free.
pub record IsValid (mm : MemoryMap) : Type 0 where
  pub words : AreWords mm.map
  pub size : length mm.map ≡ mm.num_blocks
  pub small : mm.num_blocks ≤ 2 ^ 14
  pub counted : mm.rest_pages ≡ count mm.map
  pub clock : mm.clock_block ≤ mm.num_blocks
  pub below_clock : (i : ℕ) → i < mm.clock_block → word mm.map i ≡ 0

-- The blocks from `clock_block` up to `i` are used up.
abbrev pub SkippedTo : ℕ → MemoryMap → Type 0
SkippedTo i mm = (j : ℕ) → j < i → word mm.map j ≡ 0

module _ (mm : MemoryMap) (i : ℕ) (v : IsValid mm) (h : i < mm.num_blocks)
    (d : word mm.map i ≢ 0) where
  abbrev pub bit : ℕ
  bit = count_ntz 32 (word mm.map i)

  pub found : (bit < 32) × (test_bit (word mm.map i) bit ≡ true)
  found = count_ntz_lem 32 (word mm.map i) (word-lt mm.map i v.words) d

  pub take_page-IsValid : SkippedTo i mm → IsValid (take_page mm i)
  unfolding take_page
  take_page-IsValid s = record {
    words = clear_at-AreWords mm.map i bit v.words;
    size = omega (arith, length-clear_at mm.map i bit, v.size);
    small = v.small;
    counted = omega (
      arith,
      v.counted,
      v.size,
      found.0,
      count-clear_at mm.map i bit (omega (arith, v.size)) found.0 found.1,
    );
    clock = ground arith;
    below_clock =
        λ j p. ground (arith, s j, word-clear_at mm.map i bit j (omega (arith, v.size)), h);
  }

all_zero : (m : Memory) → IsValid m.mm → m.mm.rest_pages ≡ 0 → SkippedTo m.mm.num_blocks m.mm
all_zero m v z j h = zero_of_count m.mm.map j v.words (omega (arith, v.counted))

-- The address that `palloc` returns from block `i`, and the memory that it leaves.
abbrev pub addr_in : Memory → ℕ → ℕ
addr_in m i = kern_p2v (page_addr i (count_ntz 32 (word m.mm.map i)))

abbrev pub taken : Memory → ℕ → Memory
taken m i = record { mm = take_page m.mm i; mem = pzero (addr_in m i) m.mem }

-- How a search ends: at the first word that is not 0, or with every word 0.
pub data Outcome (m : Memory) (r : Option ℕ × Memory) : Type 0 where
  exhausted : SkippedTo m.mm.num_blocks m.mm → r ≡ (none, m) → Outcome m r
  found_in :
      (i : ℕ)
      → i < m.mm.num_blocks
      → word m.mm.map i ≢ 0
      → SkippedTo i m.mm
      → r ≡ (some (addr_in m i), taken m i)
      → Outcome m r

palloc_from-Outcome :
    (rounds i : ℕ) (m : Memory)
    → i + rounds ≡ m.mm.num_blocks
    → SkippedTo i m.mm
    → Outcome m (palloc_from rounds i m)
unfolding palloc_from
palloc_from-Outcome zero i m e s = exhausted (λ j p. s j (omega arith)) refl
palloc_from-Outcome (suc rounds) i m e s = elim (Bool-cases (word m.mm.map i == 0)) [
  | inl z ↦ rw z (palloc_from-Outcome rounds (i + 1) m (omega arith) (λ j p. ground (arith, s j)))
  | inr nz ↦ found_in i (omega arith) (λ q. ground arith) s (rw nz)
]

-- On a valid map `palloc` finds the first word that is not 0.
pub palloc-Outcome : (m : Memory) → IsValid m.mm → Outcome m (palloc m)
unfolding palloc
palloc-Outcome m v = elim (Bool-cases (m.mm.rest_pages == 0)) [
  | inl z ↦ exhausted (all_zero m v (ground arith)) (rw z)
  | inr nz ↦ rw nz (
      palloc_from-Outcome (m.mm.num_blocks - m.mm.clock_block) m.mm.clock_block m
        (omega (arith, v.clock)) v.below_clock)
]
