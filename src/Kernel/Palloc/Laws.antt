-- ===== src/Kernel/Palloc/Laws.antt =====
-- What a caller of the page allocator may rely on.
use eotan.Prelude.{
  ℕ, zero, suc, ◌+◌, ◌*◌, ◌/◌, ◌%◌, ◌^◌, ◌≤◌, ◌<◌, ◌≡◌, ◌≢◌, ◌⊎◌, refl, true, false, none, some,
  arith, ◌==◌, leb, ltb, if◌then◌else◌, Bool-cases, inl, inr, ◌∙◌, ap, ◌&&◌, not,
}
use eotan.Bits.{test_bit, set_bit}
use eotan.Bits.Laws.{test_bit_high, set_bit-eq-add, clear_bit-add, test_bit-set_bit, test_bit_zero}
use eotan.Bits.Count.{test_bit-count_ntz_below}
use eotan.Bitmap.{
  word, bit_at, length-set_at, set_at-AreWords, count-set_at, count-clear_at, word-set_at,
  bit_at-clear_at, bit_at-set_at, bit_at_lem, bit_at_bound, count_none,
}
use eotan.Kernel.Palloc.{
  Memory, write, take_page, pzero_from, pzero, palloc, pfree, kern_v2p, kern_p2v, page_addr,
  page_size,
}
use eotan.Kernel.Palloc.Invariant.{
  IsValid, SkippedTo, found, bit, take_page-IsValid, Outcome, exhausted, found_in, addr_in, taken,
  palloc-Outcome,
}

-- The number of the page at a kernel address.
pub page_of : ℕ → ℕ
page_of addr = kern_v2p addr / page_size

kern_v2p-p2v : (a : ℕ) → a < 2 ^ 31 → (kern_p2v a ≡ a + 2 ^ 31) × (kern_v2p (kern_p2v a) ≡ a)
unfolding kern_p2v kern_v2p
kern_v2p-p2v a h =
    let off = test_bit_high a 31 h in
    let high = set_bit-eq-add a 31 off in
    (
      high,
      omega
          (arith, high, clear_bit-add (set_bit a 31) 31 (ground (arith, test_bit-set_bit a 31 31))),
    )

pzero_from_inside :
    (rounds i p j : ℕ) (mem : ℕ → ℕ)
    → (j < i → mem (p + j * 4) ≡ 0)
    → j < i + rounds
    → pzero_from rounds i p mem (p + j * 4) ≡ 0
unfolding pzero_from
pzero_from_inside zero i p j mem before h = before (omega arith)
pzero_from_inside (suc rounds) i p j mem before h =
    pzero_from_inside rounds (i + 1) p j (write mem (p + i * 4) 0) (λ q. ground (arith, before))
      (omega arith)

pzero_from_outside :
    (rounds i p a : ℕ) (mem : ℕ → ℕ)
    → (a < p) ⊎ (p + (i + rounds) * 4 ≤ a)
    → pzero_from rounds i p mem a ≡ mem a
unfolding pzero_from
pzero_from_outside zero i p a mem h = refl
pzero_from_outside (suc rounds) i p a mem h =
    pzero_from_outside rounds (i + 1) p a (write mem (p + i * 4) 0) (ground arith) ∙ ground arith

-- Of a call that returned the address `addr`: the page was free, no page below it was, it alone
-- is taken, and it alone is zeroed.
pub record Granted (m : Memory) (addr : ℕ) (m' : Memory) : Type 0 where
  pub aligned : addr ≡ 2 ^ 31 + page_of addr * page_size
  pub free_before : bit_at m.mm.map (page_of addr) ≡ true
  pub lowest : (n : ℕ) → n < page_of addr → bit_at m.mm.map n ≡ false
  pub bits : (n : ℕ) → bit_at m'.mm.map n ≡ (if page_of addr == n then false else bit_at m.mm.map n)
  pub rest : suc m'.mm.rest_pages ≡ m.mm.rest_pages
  pub blocks : m'.mm.num_blocks ≡ m.mm.num_blocks
  pub zeroed : (j : ℕ) → j < page_size / 4 → m'.mem (addr + j * 4) ≡ 0
  pub kept : (a : ℕ) → (a < addr) ⊎ (addr + page_size ≤ a) → m'.mem a ≡ m.mem a

module _ (m : Memory) (i : ℕ) (v : IsValid m.mm) (h : i < m.mm.num_blocks) (d : word m.mm.map i ≢ 0)
    (s : SkippedTo i m.mm) where
  addr_in_lem :
      (addr_in m i ≡ 2 ^ 31 + (i * 32 + bit m.mm i v h d) * page_size)
      × (page_of (addr_in m i) ≡ i * 32 + bit m.mm i v h d)
  unfolding page_addr page_of
  addr_in_lem =
      let b = (found m.mm i v h d).0 in
      let p = kern_v2p-p2v (page_addr i (bit m.mm i v h d)) (omega (arith, v.small)) in
      (omega (arith, p.0, v.small), omega (arith, p.1, v.small))

  lower_free : (n : ℕ) → n < i * 32 + bit m.mm i v h d → bit_at m.mm.map n ≡ false
  unfolding bit_at
  lower_free n p = elim (Bool-cases (n / 32 == i)) [
    | inl e ↦
        let e' : n / 32 ≡ i = ground arith in
        rw e' (test_bit-count_ntz_below 32 (word m.mm.map i) (n % 32) (ground arith))
    | inr ne ↦ rw (s (n / 32) (ground (arith, (found m.mm i v h d).0))) (test_bit_zero (n % 32))
  ]

  taken-Granted : Granted m (addr_in m i) (taken m i)
  unfolding take_page pzero
  taken-Granted =
      let (b, t) = found m.mm i v h d in
      let (at, page) = addr_in_lem in
      record {
        aligned = rw page at;
        free_before = rw page (bit_at_lem m.mm.map i (bit m.mm i v h d) b ∙ t);
        lowest = rw page lower_free;
        bits = λ n.
            rw page (bit_at-clear_at m.mm.map i (bit m.mm i v h d) n (omega (arith, v.size)) b);
        rest = omega (
          arith,
          v.counted,
          v.size,
          count-clear_at m.mm.map i (bit m.mm i v h d) (omega (arith, v.size)) b t,
        );
        blocks = refl;
        zeroed =
            λ j p. pzero_from_inside 1024 0 (addr_in m i) j m.mem (λ q. absurd (omega arith)) p;
        kept = λ a p. pzero_from_outside 1024 0 (addr_in m i) a m.mem p;
      }

-- On a valid memory map with a free page, `palloc` returns the address of the lowest free page,
-- takes that page and no other, and zeroes the words of that page and no other word.
pub palloc-Granted :
    (m : Memory)
    → IsValid m.mm
    → 0 < m.mm.rest_pages
    → (addr : ℕ) × ((palloc m).0 ≡ some addr) × Granted m addr (palloc m).1
palloc-Granted m v r = go (palloc-Outcome m v)
  where
    go :
        Outcome m (palloc m) → (addr : ℕ) × ((palloc m).0 ≡ some addr) × Granted m addr (palloc m).1
    go (exhausted s e) =
        absurd (omega (arith, v.counted, count_none m.mm.map (λ j q. s j (omega (arith, v.size)))))
    go (found_in i h d s e) = (addr_in m i, ap (λ r. r.0) e, rw e (taken-Granted m i v h d s))

-- With no free page `palloc` returns `NULL` and changes nothing.
pub palloc_exhausted : (m : Memory) → m.mm.rest_pages ≡ 0 → palloc m ≡ (none, m)
unfolding palloc
palloc_exhausted m z = ground arith

palloc-IsValid : (m : Memory) → IsValid m.mm → IsValid (palloc m).1.mm
palloc-IsValid m v = go (palloc-Outcome m v)
  where
    go : Outcome m (palloc m) → IsValid (palloc m).1.mm
    go (exhausted s e) = rw e v
    go (found_in i h d s e) = rw e (take_page-IsValid m.mm i v h d s)

pfree-bits :
    (addr : ℕ) (m : Memory) (n : ℕ)
    → IsValid m.mm
    → bit_at (pfree addr m).mm.map n
      ≡ (if page_of addr == n && ltb n (m.mm.num_blocks * 32) then true else bit_at m.mm.map n)
unfolding pfree page_of
pfree-bits addr m n v = ground (
  arith,
  bit_at-set_at m.mm.map (kern_v2p addr / 4096 / 32) (kern_v2p addr / 4096 % 32) n,
  bit_at_lem m.mm.map (kern_v2p addr / 4096 / 32) (kern_v2p addr / 4096 % 32),
  v.size,
)

pfree-IsValid : (addr : ℕ) (m : Memory) → IsValid m.mm → IsValid (pfree addr m).mm
unfolding pfree
pfree-IsValid addr m v =
    let i = kern_v2p addr / page_size / 32 in
    let k = kern_v2p addr / page_size % 32 in
    elim (Bool-cases (leb m.mm.num_blocks i)) [
      | inl out ↦ rw out v
      | inr inside ↦ elim (Bool-cases (test_bit (word m.mm.map i) k)) [
        | inl free ↦ rw (inside, free) v
        | inr used ↦
            rw (inside, used)
              (record {
                words = set_at-AreWords m.mm.map i k (omega arith) v.words;
                size = omega (arith, length-set_at m.mm.map i k, v.size);
                small = v.small;
                counted = ground (arith, v.counted, v.size, count-set_at m.mm.map i k);
                clock = ground (arith, v.clock);
                below_clock = λ j p.
                    ground (arith, v.below_clock j, word-set_at m.mm.map i k j, v.clock, v.size);
              })
      ]
    ]

-- `pfree` counts the page that it frees.
pub rest_pages-pfree :
    (addr : ℕ) (m : Memory)
    → IsValid m.mm
    → (pfree addr m).mm.rest_pages ≡ (
        if ltb (page_of addr) (m.mm.num_blocks * 32) && not (bit_at m.mm.map (page_of addr))
        then m.mm.rest_pages + 1
        else m.mm.rest_pages)
unfolding pfree page_of bit_at
rest_pages-pfree addr m v = ground arith

-- On a valid memory map with a free page, `palloc` returns a page, and freeing it restores the
-- set of free pages and their count.
pub pfree-palloc :
    (m : Memory)
    → IsValid m.mm
    → 0 < m.mm.rest_pages
    → (addr : ℕ) × ((palloc m).0 ≡ some addr)
      × ((n : ℕ) → bit_at (pfree addr (palloc m).1).mm.map n ≡ bit_at m.mm.map n)
      × ((pfree addr (palloc m).1).mm.rest_pages ≡ m.mm.rest_pages)
pfree-palloc m v r =
    let (addr, e, g) = palloc-Granted m v r in
    let v' = palloc-IsValid m v in
    (
      addr,
      e,
      λ n. ground (
        arith,
        pfree-bits addr (palloc m).1 n v',
        g.bits n,
        g.free_before,
        bit_at_bound m.mm.map n,
        g.blocks,
        v.size,
      ),
      ground (
        arith,
        rest_pages-pfree addr (palloc m).1 v',
        g.bits (page_of addr),
        g.rest,
        g.blocks,
        g.free_before,
        bit_at_bound m.mm.map (page_of addr),
        v.size,
      ),
    )

-- On a valid memory map, `pfree` of any address keeps the map valid and marks its page free, and
-- no other; a page beyond the map is ignored.

-- On a valid memory map, `palloc`, whatever it returns, and `pfree` of any address keep the map
-- valid; `pfree` marks the page of its address free, and no other, and a page beyond the map is
-- ignored.
pub pfree_lem :
    (addr : ℕ) (m : Memory)
    → IsValid m.mm
    → IsValid (palloc m).1.mm
      × IsValid (pfree addr m).mm
      × ((n : ℕ)
          → bit_at (pfree addr m).mm.map n ≡ (
              if page_of addr == n && ltb n (m.mm.num_blocks * 32)
              then true
              else bit_at m.mm.map n))
pfree_lem addr m v = (palloc-IsValid m v, pfree-IsValid addr m v, λ n. pfree-bits addr m n v)
