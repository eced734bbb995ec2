-- ===== src/Set/Sequence/Laws.antt =====
-- What a user of the allocator of numbers may rely on.
use eotan.Prelude.{
  ℕ, zero, suc, ◌+◌, ◌-◌, ◌*◌, ◌/◌, ◌%◌, ◌^◌, ◌≤◌, ◌<◌, ◌≡◌, ◌≢◌, refl, sym, true, false, none,
  some, List, arith, ◌==◌, leb, ltb, length, set, length-set, if◌then◌else◌, Bool-cases, inl, inr,
  ◌∙◌, ap, ◌&&◌,
}
use eotan.Bits.{test_bit, count_bits}
use eotan.Bits.Count.{count_bits-ones, pow-lt, test_bit-ones}
use eotan.Bitmap.{
  AreWords, count, word, bit_at, length-set_at, length-clear_at, set_at-AreWords, clear_at-AreWords,
  count-set_at, count-clear_at, bit_at-clear_at, bit_at-set_at, bit_at_lem, bit_at_bound,
  count_none, AreWords-word, count_full, count-set, get_or-set,
}
use eotan.Set.Sequence.{Sequence, initialize, get, release, fill, all_ones, int_max, num_blocks}
use eotan.Set.Sequence.Find.{Outcome, found_in, missed, taken, get-Outcome}

-- `rest` counts the free numbers, and `clock_block` is a block of the map.
pub record IsValid (s : Sequence) : Type 0 where
  pub words : AreWords s.map
  pub size : length s.map ≡ s.num_of_blocks
  pub clock : s.clock_block < s.num_of_blocks
  pub counted : s.rest ≡ count s.map

module _ (s : Sequence) (v : IsValid s) (i k : ℕ) (h : i < s.num_of_blocks) (b : k < 32)
    (t : test_bit (word s.map i) k ≡ true) where
  taken-IsValid : IsValid (taken s i k)
  taken-IsValid = record {
    words = clear_at-AreWords s.map i k v.words;
    size = omega (arith, length-clear_at s.map i k, v.size);
    clock = h;
    counted =
        omega (arith, v.size, v.counted, count-clear_at s.map i k (omega (arith, v.size)) b t);
  }

-- Of a call that returned `n`: `n` was free, and it alone is taken.
pub record Granted (s : Sequence) (n : ℕ) (s' : Sequence) : Type 0 where
  pub free_before : bit_at s.map n ≡ true
  pub bits : (m : ℕ) → bit_at s'.map m ≡ (if n == m then false else bit_at s.map m)
  pub rest : suc s'.rest ≡ s.rest
  pub blocks : s'.num_of_blocks ≡ s.num_of_blocks
  pub valid : IsValid s'

-- On a valid sequence with a free number, wherever the clock and the mask stand, `sequence_get`
-- returns a free number, takes it and no other, counts one free number less, and leaves the
-- sequence valid.
pub get-Granted :
    (s : Sequence) → IsValid s → 0 < s.rest → (n : ℕ) × ((get s).0 ≡ some n) × Granted s n (get s).1
get-Granted s v r = go (get-Outcome s (v.words, v.size, v.clock) r)
  where
    go :
        Outcome s 0 s.num_of_blocks (get s) → (n : ℕ) × ((get s).0 ≡ some n) × Granted s n (get s).1
    go (found_in i k h b t e) = (
      i * 32 + k,
      ap (λ p. p.0) e,
      rw e (record {
        free_before = bit_at_lem s.map i k b ∙ t;
        bits = λ m. bit_at-clear_at s.map i k m (omega (arith, v.size)) b;
        rest =
            omega (arith, v.size, v.counted, count-clear_at s.map i k (omega (arith, v.size)) b t);
        blocks = refl;
        valid = taken-IsValid s v i k h b t;
      }),
    )
    go (missed z e) = absurd (
        omega
          (arith, v.counted, count_none s.map (λ j p. z j (omega arith) (omega (arith, v.size)))))

-- With no free number `sequence_get` returns -1 and changes nothing.
pub get_exhausted : (s : Sequence) → s.rest ≡ 0 → get s ≡ (none, s)
unfolding get
get_exhausted s h = ground arith

pub release-bits :
    (s : Sequence) (n m : ℕ)
    → IsValid s
    → bit_at (release s n).map m
      ≡ (if n == m && ltb m (s.num_of_blocks * 32) then true else bit_at s.map m)
unfolding release
release-bits s n m v =
    ground
      (arith, v.size, bit_at-set_at s.map (n / 32) (n % 32) m, bit_at_lem s.map (n / 32) (n % 32))

pub release-blocks : (s : Sequence) (n : ℕ) → (release s n).num_of_blocks ≡ s.num_of_blocks
unfolding release
release-blocks s n = ground arith

pub release-IsValid : (s : Sequence) (n : ℕ) → IsValid s → IsValid (release s n)
unfolding release
release-IsValid s n v = elim (Bool-cases (leb s.num_of_blocks (n / 32))) [
  | inl out ↦ rw out v
  | inr inside ↦ elim (Bool-cases (test_bit (word s.map (n / 32)) (n % 32))) [
    | inl free ↦ rw (inside, free) v
    | inr used ↦
        rw (inside, used)
          (record {
            words = set_at-AreWords s.map (n / 32) (n % 32) (omega arith) v.words;
            size = omega (arith, length-set_at s.map (n / 32) (n % 32), v.size);
            clock = ground (arith, v.clock);
            counted = ground (arith, v.counted, v.size, count-set_at s.map (n / 32) (n % 32));
          })
  ]
]

-- A number that is got and given back is free again.
release-get :
    (s : Sequence)
    → IsValid s
    → 0 < s.rest
    → (n : ℕ) × ((get s).0 ≡ some n)
      × ((m : ℕ) → bit_at (release (get s).1 n).map m ≡ bit_at s.map m)
release-get s v r =
    let (n, e, g) = get-Granted s v r in
    (
      n,
      e,
      λ m. ground (
        arith,
        release-bits (get s).1 n m g.valid,
        g.bits m,
        g.free_before,
        g.blocks,
        v.size,
        bit_at_bound s.map m,
      ),
    )

-- the blocks from `i` on that `fill` writes
fill_lem :
    (rounds i : ℕ) (map : List ℕ) (j : ℕ)
    → i + rounds ≤ length map
    → (length (fill rounds i map) ≡ length map)
      × (word (fill rounds i map) j
          ≡ (if leb i j && ltb j (i + rounds) then all_ones else word map j))
unfolding fill
fill_lem zero i map j h = ground arith
fill_lem (suc rounds) i map j h =
    let ih =
      fill_lem rounds (i + 1) (set map i all_ones) j (omega (arith, length-set map i all_ones)) in
    ground (arith, length-set map i all_ones, ih, get_or-set map i j all_ones)

-- What the map holds after `sequence_initialize`.
module _ (max : ℕ) (buf : List ℕ) (pos : max ≢ 0) (size : length buf ≡ num_blocks max) where
  filled : List ℕ
  filled = fill (num_blocks max) 0 buf

  trimmed : List ℕ
  unfolding filled
  trimmed = if max % 32 == 0 then filled else set filled (num_blocks max - 1) (2 ^ (max % 32) - 1)

  length-filled : length filled ≡ num_blocks max
  unfolding filled
  length-filled = omega (arith, (fill_lem (num_blocks max) 0 buf 0 (omega arith)).0)

  word-filled : (i : ℕ) → i < num_blocks max → word filled i ≡ all_ones
  unfolding filled
  word-filled i h = ground (arith, fill_lem (num_blocks max) 0 buf i)

  length-trimmed : length trimmed ≡ num_blocks max
  unfolding trimmed
  length-trimmed =
      ground (arith, length-filled, length-set filled (num_blocks max - 1) (2 ^ (max % 32) - 1))

  word-trimmed :
      (i : ℕ)
      → i < num_blocks max
      → word trimmed i ≡ 2 ^ (if leb (i * 32 + 32) max then 32 else max % 32) - 1
  unfolding trimmed
  word-trimmed i h = elim (Bool-cases (max % 32 == 0)) [
    | inl z ↦ rw z (ground (arith, word-filled i h))
    | inr nz ↦ rw nz (
        ground (
          arith,
          word-filled i h,
          length-filled,
          get_or-set filled (num_blocks max - 1) i (2 ^ (max % 32) - 1),
        ))
  ]

  trimmed-AreWords : AreWords trimmed
  trimmed-AreWords =
      AreWords-word trimmed
        (λ i h. rw (word-trimmed i (omega (arith, length-trimmed))) (pow-lt 32 _ (ground arith)))

  count-trimmed : count trimmed ≡ max
  unfolding trimmed
  count-trimmed =
      let all = count_full filled (λ i h. word-filled i (omega (arith, length-filled))) in
      elim (Bool-cases (max % 32 == 0)) [
        | inl z ↦ rw z (ground (arith, all, length-filled))
        | inr nz ↦
            let last = num_blocks max - 1 in
            rw nz (
              ground (
                arith,
                all,
                length-filled,
                count-set filled last (2 ^ (max % 32) - 1),
                ap (count_bits 32) (word-filled last (ground arith)),
                count_bits-ones 32 32,
                count_bits-ones 32 (max % 32),
              ))
      ]

  bit_at-trimmed : (n : ℕ) → bit_at trimmed n ≡ ltb n max
  unfolding bit_at
  bit_at-trimmed n = elim (Bool-cases (ltb (n / 32) (num_blocks max))) [
    | inl p ↦ rw (word-trimmed (n / 32) (ground arith)) (
        ground
          (arith, test_bit-ones (if leb (n / 32 * 32 + 32) max then 32 else max % 32) (n % 32)))
    | inr p ↦ ground (arith, bit_at_bound trimmed n, length-trimmed)
  ]

-- `sequence_initialize` of a `max` from 1 to `INT_MAX` and a buffer of just the blocks it needs
-- makes a valid sequence with `max` free numbers, exactly those below `max`.
pub initialize_lem :
    (max : ℕ) (buf : List ℕ)
    → max ≢ 0
    → max ≤ int_max
    → length buf ≡ num_blocks max
    → (s : Sequence) × (initialize max (some buf) ≡ some s)
      × IsValid s
      × (s.rest ≡ max)
      × ((n : ℕ) → bit_at s.map n ≡ ltb n max)
unfolding initialize trimmed
initialize_lem max buf pos h size = (
  record {
    rest = max;
    clock_block = 0;
    num_of_blocks = num_blocks max;
    map = trimmed max buf pos size;
    mask = all_ones;
  },
  ground arith,
  record {
    words = trimmed-AreWords max buf pos size;
    size = length-trimmed max buf pos size;
    clock = omega arith;
    counted = sym (count-trimmed max buf pos size);
  },
  refl,
  bit_at-trimmed max buf pos size,
)

-- On a valid sequence, `sequence_release` of any number keeps the sequence valid and makes the
-- number free, and no other; a number beyond the map is ignored.
pub release_lem :
    (s : Sequence) (n : ℕ)
    → IsValid s
    → IsValid (release s n)
      × ((m : ℕ)
          → bit_at (release s n).map m
            ≡ (if n == m && ltb m (s.num_of_blocks * 32) then true else bit_at s.map m))
release_lem s n v = (release-IsValid s n v, λ m. release-bits s n m v)
