-- ===== src/Kernel/Palloc.antt =====
-- The page allocator, kernel/palloc.c, over the `MemoryMap` of include/nerve/memory_map.h.
-- A set bit of `map` is a free page.  `mem` is the memory that `pzero` clears, by the address of
-- each 32-bit word.  Addresses are 32-bit words; a page number is an address over 4096.
pub mod Invariant
pub mod Laws
mod Tests
use eotan.Prelude.{
  ℕ, zero, suc, ◌+◌, ◌-◌, ◌*◌, ◌/◌, ◌%◌, ◌^◌, Bool, true, false, Option, none, some, List, ◌==◌,
  leb, ltb, if◌then◌else◌,
}
use eotan.Bits.{test_bit, set_bit, clear_bit, count_ntz}
use eotan.Bitmap.{word, set_at, clear_at}

pub record MemoryMap : Type 0 where
  pub rest_pages : ℕ
  pub clock_block : ℕ
  pub num_blocks : ℕ
  pub max_pages : ℕ
  pub map : List ℕ

pub record Memory : Type 0 where
  pub mm : MemoryMap
  pub mem : ℕ → ℕ

abbrev pub page_size : ℕ
page_size = 4096

-- `SUPERVISOR_START` is bit 31 of an address.
abbrev pub supervisor_bit : ℕ
supervisor_bit = 31

pub kern_p2v : ℕ → ℕ
kern_p2v addr = set_bit addr supervisor_bit

pub kern_v2p : ℕ → ℕ
kern_v2p addr = clear_bit addr supervisor_bit

abbrev pub write : (ℕ → ℕ) → ℕ → ℕ → ℕ → ℕ
write mem p v q = if p == q then v else mem q

-- `p[i] = 0` for the `rounds` indices from `i` on
pzero_from : ℕ → ℕ → ℕ → (ℕ → ℕ) → ℕ → ℕ
pzero_from zero i p mem = mem
pzero_from (suc rounds) i p mem = pzero_from rounds (i + 1) p (write mem (p + i * 4) 0)

pub pzero : ℕ → (ℕ → ℕ) → ℕ → ℕ
unfolding pzero_from
pzero p mem = pzero_from (page_size / 4) 0 p mem

-- what the loop of `palloc` does at the first word that is not 0
pub take_page : MemoryMap → ℕ → MemoryMap
take_page mm i =
    let map' = clear_at mm.map i (count_ntz 32 (word mm.map i)) in
    record mm {
      map = map';
      clock_block = if word map' i == 0 then i + 1 else i;
      rest_pages = mm.rest_pages - 1;
    }

-- `((i << MPU_LOG_INT) | bit) << BITS_OFFSET`, the bit being below 32
pub page_addr : ℕ → ℕ → ℕ
page_addr i bit = (i * 32 + bit) * page_size % 2 ^ 32

-- the loop over the `rounds` blocks from `i` on
palloc_from : ℕ → ℕ → Memory → Option ℕ × Memory
unfolding take_page page_addr kern_p2v pzero
palloc_from zero i m = (none, m)
palloc_from (suc rounds) i m =
    let next = palloc_from rounds (i + 1) m in
    let d = word m.mm.map i in
    let addr = kern_p2v (page_addr i (count_ntz 32 d)) in
    if d == 0 then next else (some addr, record { mm = take_page m.mm i; mem = pzero addr m.mem })

-- `rest_pages--` runs only where `rest_pages` is not 0, so `-` is exact.
pub palloc : Memory → Option ℕ × Memory
unfolding palloc_from
palloc m =
    if m.mm.rest_pages == 0
    then (none, m)
    else palloc_from (m.mm.num_blocks - m.mm.clock_block) m.mm.clock_block m

pub pfree : ℕ → Memory → Memory
unfolding kern_v2p
pfree addr m =
    let page = kern_v2p addr / page_size in
    let i = page / 32 in
    let bit = page % 32 in
    if leb m.mm.num_blocks i then m else if test_bit (word m.mm.map i) bit then m else record m {
      mm = record (m.mm) {
        map = set_at m.mm.map i bit;
        clock_block = if ltb i m.mm.clock_block then i else m.mm.clock_block;
        rest_pages = m.mm.rest_pages + 1;
      };
    }
