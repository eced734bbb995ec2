-- ===== src/Set/Sequence/Find.antt =====
-- The search of `sequence_get`: what one block gives, and that the two loops miss no free number.
use eotan.Prelude.{
  ℕ, zero, suc, ◌+◌, ◌-◌, ◌*◌, ◌≤◌, ◌<◌, ◌≡◌, ◌⊎◌, refl, true, Option, none, some, List, arith,
  ◌==◌, leb, length, Bool-cases, inl, inr, ap, lt→ltb,
}
use eotan.Bits.{test_bit, and_bits, count_ntz}
use eotan.Bits.Laws.{test_bit-and_bits, and_bits-ones}
use eotan.Bits.Count.{count_ntz_lem, and_bits-lt}
use eotan.Bitmap.{AreWords, word, clear_at, word-lt}
use eotan.Set.Sequence.{Sequence, find, get_from, or_else, get, all_ones, mask_above}

-- The state after bit `k` of word `i` is taken.
abbrev pub taken : Sequence → ℕ → ℕ → Sequence
taken s i k = record s {
  rest = s.rest - 1;
  clock_block = i;
  map = clear_at s.map i k;
  mask = mask_above k;
}

abbrev pub unmasked : Sequence → Sequence
unmasked s = record s { mask = all_ones }

-- The words of the blocks from `i` up to `j` hold no number.
abbrev pub EmptyIn : List ℕ → ℕ → ℕ → Type 0
EmptyIn map i j = (n : ℕ) → i ≤ n → n < j → word map n ≡ 0

-- How a search of the blocks from `i` up to `j` ends.
pub data Outcome (s : Sequence) (i j : ℕ) (r : Option ℕ × Sequence) : Type 0 where
  found_in :
      (n k : ℕ)
      → n < j
      → k < 32
      → test_bit (word s.map n) k ≡ true
      → r ≡ (some (n * 32 + k), taken s n k)
      → Outcome s i j r
  missed : EmptyIn s.map i j → r ≡ (none, unmasked s) → Outcome s i j r

-- A block under the full mask.
find-Outcome :
    (s : Sequence) (i : ℕ) → AreWords s.map → s.mask ≡ all_ones → Outcome s i (i + 1) (find s i)
unfolding find
find-Outcome s i w m =
    let full : and_bits 32 (word s.map i) s.mask ≡ word s.map i =
      rw m (and_bits-ones 32 (word s.map i) (word-lt s.map i w)) in
    elim (Bool-cases (word s.map i == 0)) [
      | inl z ↦ missed (λ n p q. let e : n ≡ i = omega arith in rw e (ground arith)) (rw (full, z))
      | inr nz ↦
          let c = count_ntz_lem 32 (word s.map i) (word-lt s.map i w) (λ e. ground arith) in
          found_in i (count_ntz 32 (word s.map i)) (omega arith) c.0 c.1 (rw (full, nz))
    ]

-- A block under any mask.
find_any :
    (s : Sequence) (i j : ℕ)
    → AreWords s.map
    → i < j
    → Outcome s i i (find s i) ⊎ Outcome s i j (find s i)
unfolding find
find_any s i j w h = elim (Bool-cases (and_bits 32 (word s.map i) s.mask == 0)) [
  | inl z ↦ inl (missed (λ n p q. absurd (omega arith)) (rw z))
  | inr nz ↦
      let bits = and_bits 32 (word s.map i) s.mask in
      let c = count_ntz_lem 32 bits (and_bits-lt 32 (word s.map i) s.mask) (λ e. ground arith) in
      inr (
        found_in i (count_ntz 32 bits) h c.0
          (ground (arith, c.1, test_bit-and_bits 32 (word s.map i) s.mask (count_ntz 32 bits) c.0))
          (rw nz))
]

-- The blocks from `i` on under the full mask.
get_from-Outcome :
    (rounds i : ℕ) (s : Sequence)
    → AreWords s.map
    → s.mask ≡ all_ones
    → Outcome s i (i + rounds) (get_from rounds i s)
unfolding get_from
get_from-Outcome zero i s w m =
    missed (λ n p q. absurd (omega arith)) (ap (λ x. (none, record s { mask = x })) m)
get_from-Outcome (suc rounds) i s w m = elim (find-Outcome s i w m) [
  | found_in n k a b t e ↦ found_in n k (omega arith) b t (rw e)
  | missed z e ↦ elim (get_from-Outcome rounds (i + 1) (unmasked s) w refl) [
    | found_in n k a b t e' ↦ found_in n k (omega arith) b t (rw e e')
    | missed z' e' ↦
        missed
          (λ n p q. elim (Bool-cases (n == i)) [
            | inl y ↦ z n p (ground arith)
            | inr y ↦ z' n (ground arith) (omega arith)
          ])
          (rw e e')
  ]
]

-- What the invariant of the module above promises of the map.
abbrev pub IsReady : Sequence → Type 0
IsReady s = AreWords s.map × (length s.map ≡ s.num_of_blocks) × (s.clock_block < s.num_of_blocks)

-- The rest of the search when the first block gave nothing.
second :
    (s : Sequence)
    → AreWords s.map
    → s.clock_block < s.num_of_blocks
    → (rounds : ℕ) → s.clock_block + 1 + rounds ≡ s.num_of_blocks
    → Outcome s 0 s.num_of_blocks (
        or_else
          (λ s'. get_from (s'.clock_block + 1) 0 s')
          (get_from rounds (s.clock_block + 1) (unmasked s)))
unfolding or_else
second s w c rounds h = elim (get_from-Outcome rounds (s.clock_block + 1) (unmasked s) w refl) [
  | found_in n k a b t e ↦ rw e (found_in n k (omega arith) b t refl)
  | missed z e ↦ rw e (elim (get_from-Outcome (s.clock_block + 1) 0 (unmasked s) w refl) [
    | found_in n k a b t e' ↦ rw e' (found_in n k (omega arith) b t refl)
    | missed z' e' ↦ rw e' (
        missed
          (λ n p q. elim (Bool-cases (leb n s.clock_block)) [
            | inl y ↦ z' n (omega arith) (ground arith)
            | inr y ↦ z n (ground arith) (omega arith)
          ])
          refl)
  ])
]

-- The two loops together find a number in any map that has one, whatever the mask hides.
pub get-Outcome : (s : Sequence) → IsReady s → 0 < s.rest → Outcome s 0 s.num_of_blocks (get s)
unfolding get or_else get_from
get-Outcome s (w, l, c) r =
    let rounds = s.num_of_blocks - s.clock_block in
    let e : rounds ≡ suc (rounds - 1) = omega arith in
    rw (lt→ltb 0 s.rest r) (
      rw e (elim (find_any s s.clock_block s.num_of_blocks w c) [
        | inl (found_in n k a b t e') ↦ rw e' (found_in n k (omega arith) b t refl)
        | inr (found_in n k a b t e') ↦ rw e' (found_in n k a b t refl)
        | inl (missed z e') ↦ rw e' (second s w c (rounds - 1) (omega arith))
        | inr (missed z e') ↦ rw e' (second s w c (rounds - 1) (omega arith))
      ]))
