-- ===== src/Set/Ring/Put.antt =====
-- Putting appends to the queue.
use Prim.Native.Nat.{min}
use mathlib.Core.List.{append-nil, append_assoc}
use eotan.Prelude.{
  ℕ, suc, ◌+◌, ◌-◌, ◌<◌, ◌≤◌, ◌≡◌, ◌≢◌, refl, sym, ◌∙◌, true, false, List, [], ◌∷◌, ◌++◌, arith,
  ◌==◌, ltb, leb, length, length-drop, take, drop, Bool-cases, inl, inr, test_eq, test_ne, ne_test,
}
use eotan.Set.Ring.{Ring, cutdown, ring_get_rest, span, store, put_rounds, ring_put}
use eotan.Set.Ring.Store.{span-longer, span-behind, take-sum}
use eotan.Set.Ring.Laws.{IsValid, contents, ring_get_rest_lem}

-- What a put of `xs` does to the queue.
abbrev pub Puts : Ring → List ℕ → ℕ × Ring → Type 0
Puts r xs (m, r') =
    IsValid r'
    × (r'.size ≡ r.size)
    × (m ≡ min (length xs) (ring_get_rest r))
    × (contents r' ≡ contents r ++ take m xs)

-- A stretch from the start prolonged, and another one behind it.
two_parts :
    (b : ℕ → ℕ) (w n i m : ℕ) (xs : List ℕ)
    → n ≤ length xs
    → w + n ≤ i
    → span (store b w n xs) i m ++ span (store b w n xs) 0 (w + n)
      ≡ (span b i m ++ span b 0 w) ++ take n xs
two_parts b w n i m xs h l =
    let e : w + n - 0 ≡ w + n = omega arith in
    let f : w - 0 ≡ w = omega arith in
    let s : span (store b w n xs) 0 (w + n) ≡ span b 0 w ++ take n xs =
      (let q = span-longer b 0 w n xs h (omega arith) in rw (e, f) at q) in
    rw (span-behind b w n i m xs l, s) (sym (append_assoc (span b i m) (span b 0 w) (take n xs)))

-- The free part is before the read position.
before_read :
    (fuel : ℕ) (r : Ring) (xs : List ℕ)
    → IsValid r
    → leb r.read r.write ≡ false
    → Puts r xs (put_rounds (suc fuel) r xs)
unfolding put_rounds contents ring_get_rest span
before_read fuel r xs v y =
    let e : r.write < r.read = ground arith in
    elim (Bool-cases (length xs == 0)) [
      | inl z ↦
          let k0 : length xs ≡ 0 = test_eq z in
          simp (z, y) (v, refl, omega arith, sym (append-nil _))
      | inr z ↦ elim (Bool-cases (r.read - r.write - 1 == 0)) [
        | inl w ↦
            let k0 : r.read - r.write - 1 ≡ 0 = test_eq w in
            simp (z, y, w) (v, refl, omega arith, sym (append-nil _))
        | inr w ↦
            let c : leb r.size (r.write + min (r.read - r.write - 1) (length xs)) ≡ false =
              ground (arith, v.reads) in
            let d : leb r.read (r.write + min (r.read - r.write - 1) (length xs)) ≡ false =
              ground arith in
            simp (z, y, w, c, d)
              (
                record { reads = v.reads; writes = ground arith },
                refl,
                omega arith,
                two_parts r.buf r.write (min (r.read - r.write - 1) (length xs)) r.read
                    (r.size - r.read) xs (omega arith) (omega arith),
              )
      ]
    ]

-- The free part is at the end, but for one place.
at_start :
    (fuel : ℕ) (r : Ring) (xs : List ℕ)
    → IsValid r
    → r.read ≡ 0
    → Puts r xs (put_rounds (suc fuel) r xs)
unfolding put_rounds contents ring_get_rest span
at_start fuel r xs v o =
    let y : leb r.read r.write ≡ true = ground arith in
    let o' : (r.read == 0) ≡ true = ground arith in
    let rest : r.size - r.write + r.read - 1 ≡ r.size - r.write - 1 = omega (arith, v.writes) in
    elim (Bool-cases (length xs == 0)) [
      | inl z ↦
          let k0 : length xs ≡ 0 = test_eq z in
          simp (z, y) (v, refl, omega arith, sym (append-nil _))
      | inr z ↦ elim (Bool-cases (r.size - r.write - 1 == 0)) [
        | inl w ↦
            let k0 : r.size - r.write - 1 ≡ 0 = test_eq w in
            simp (z, y, o', w) (v, refl, omega arith, sym (append-nil _))
        | inr w ↦
            let n : ℕ = min (r.size - r.write - 1) (length xs) in
            let c : leb r.size (r.write + min (r.size - r.write - 1) (length xs)) ≡ false =
              ground (arith, v.writes) in
            let d : leb r.read (r.write + min (r.size - r.write - 1) (length xs)) ≡ true =
              ground arith in
            simp (z, y, o', w, c, d)
              (
                record { reads = v.reads; writes = ground arith },
                refl,
                omega arith,
                span-longer r.buf r.read r.write (min (r.size - r.write - 1) (length xs)) xs
                    (omega arith) (omega arith),
              )
      ]
    ]

drop_all : (xs : List ℕ) → drop (length xs) xs ≡ []
drop_all [] = refl
drop_all (x ∷ xs) = drop_all xs

-- The ring after the first round fills the memory to its end.
abbrev filled : Ring → List ℕ → Ring
filled r xs = record r { buf = store r.buf r.write (r.size - r.write) xs; write = 0 }

contents-filled :
    (r : Ring) (xs : List ℕ)
    → IsValid r
    → r.read ≤ r.write
    → r.read ≢ 0
    → r.size - r.write ≤ length xs
    → contents (filled r xs) ≡ contents r ++ take (r.size - r.write) xs
unfolding contents span
contents-filled r xs v l o h =
    let y : leb r.read r.write ≡ true = ground arith in
    let z : leb r.read 0 ≡ false = ground arith in
    let e : r.write + (r.size - r.write) - r.read ≡ r.size - r.read = omega (arith, v.writes) in
    let q = span-longer r.buf r.read r.write (r.size - r.write) xs h l in
    simp (y, z) (append-nil _ ∙ (rw e at q))

-- The first round where the free part is in two.
round_on :
    (fuel : ℕ) (r : Ring) (xs : List ℕ) (n w : ℕ)
    → leb r.read r.write ≡ true
    → (r.read == 0) ≡ false
    → (length xs == 0) ≡ false
    → (r.size - r.write == 0) ≡ false
    → min (r.size - r.write) (length xs) ≡ n
    → cutdown r (r.write + n) ≡ w
    → put_rounds (suc fuel) r xs ≡ (
      n + (put_rounds fuel (record r { buf = store r.buf r.write n xs; write = w }) (drop n xs)).0,
      (put_rounds fuel (record r { buf = store r.buf r.write n xs; write = w }) (drop n xs)).1,
    )
unfolding put_rounds
round_on fuel r xs n w y o z e m c = simp (z, y, o, e, m, c) refl

nothing_left : (fuel : ℕ) (r : Ring) → put_rounds (suc fuel) r [] ≡ (0, r)
unfolding put_rounds
nothing_left fuel r = refl

-- Two puts, one after the other.
joined :
    (r r' : Ring) (xs : List ℕ) (n : ℕ) (p : ℕ × Ring)
    → r'.size ≡ r.size
    → n ≤ length xs
    → contents r' ≡ contents r ++ take n xs
    → ring_get_rest r ≡ n + ring_get_rest r'
    → Puts r' (drop n xs) p
    → Puts r xs (n + p.0, p.1)
joined r r' xs n p s h c f (v, t, m, d) = (
  v,
  t ∙ s,
  omega (arith, length-drop n xs, m, f),
  d ∙ rw (c, take-sum n p.0 xs) (append_assoc (contents r) (take n xs) (take p.0 (drop n xs))),
)

rest_behind :
    (r : Ring) → leb r.read r.write ≡ true → ring_get_rest r ≡ r.size - r.write + r.read - 1
unfolding ring_get_rest
rest_behind r y = rw y refl

ring_get_rest-filled :
    (r : Ring) (xs : List ℕ) → r.read ≢ 0 → ring_get_rest (filled r xs) ≡ r.read - 1
unfolding ring_get_rest
ring_get_rest-filled r xs o =
    let y : leb r.read 0 ≡ false = ground arith in
    let z : r.read - 0 ≡ r.read = omega arith in simp (y, z) refl

-- A text that does not reach the end of the memory.
before_end :
    (r : Ring) (xs : List ℕ)
    → leb r.read r.write ≡ true
    → contents (record r { buf = store r.buf r.write (length xs) xs; write = r.write + length xs })
      ≡ contents r ++ take (length xs) xs
unfolding contents
before_end r xs y =
    let d : leb r.read (r.write + length xs) ≡ true = ground arith in
    simp (y, d) (span-longer r.buf r.read r.write (length xs) xs (omega arith) (ground arith))

-- The free part is in two.
in_two :
    (fuel : ℕ) (r : Ring) (xs : List ℕ)
    → IsValid r
    → leb r.read r.write ≡ true
    → r.read ≢ 0
    → (length xs == 0) ≡ false
    → Puts r xs (put_rounds (suc (suc fuel)) r xs)
in_two fuel r xs v y o z =
    let l : r.read ≤ r.write = ground arith in
    let o' : (r.read == 0) ≡ false = ne_test o in
    let w : (r.size - r.write == 0) ≡ false = ne_test (omega (arith, v.writes)) in
    elim (Bool-cases (ltb (length xs) (r.size - r.write))) [
      | inl short ↦
          rw
            (
              round_on (suc fuel) r xs (length xs) (r.write + length xs) y o' z w (ground arith)
                  (ground arith),
              drop_all xs,
              nothing_left fuel,
            )
            (
              record { reads = v.reads; writes = ground arith },
              refl,
              rw (rest_behind r y) (ground arith),
              (let e : length xs + 0 ≡ length xs = omega arith in rw e (before_end r xs y)),
            )
      | inr long ↦
          let p =
            before_read fuel (filled r xs) (drop (r.size - r.write) xs)
              (record { reads = v.reads; writes = ground (arith, v.reads) }) (ground arith) in
          rw (round_on (suc fuel) r xs (r.size - r.write) 0 y o' z w (ground arith) (ground arith))
            (joined r (filled r xs) xs (r.size - r.write)
              (put_rounds (suc fuel) (filled r xs) (drop (r.size - r.write) xs)) refl (ground arith)
              (contents-filled r xs v l o (ground arith))
              (rw (rest_behind r y, ring_get_rest-filled r xs o) (omega (arith, v.writes))) p)
    ]

nothing_put :
    (fuel : ℕ) (r : Ring) (xs : List ℕ)
    → IsValid r
    → length xs ≡ 0
    → Puts r xs (put_rounds (suc fuel) r xs)
nothing_put fuel r [] v e =
    rw (nothing_left fuel r) (v, refl, omega arith, sym (append-nil (contents r)))
nothing_put fuel r (x ∷ xs) v e = absurd (omega arith)

ring_put_lem : (r : Ring) (xs : List ℕ) → IsValid r → Puts r xs (ring_put r xs)
unfolding ring_put
ring_put_lem r xs v = elim (Bool-cases (leb r.read r.write)) [
  | inl y ↦ elim (Bool-cases (r.read == 0)) [
    | inl o ↦ at_start 1 r xs v (test_eq o)
    | inr o ↦ elim (Bool-cases (length xs == 0)) [
      | inl z ↦ nothing_put 1 r xs v (test_eq z)
      | inr z ↦ in_two 0 r xs v y (test_ne o) z
    ]
  ]
  | inr n ↦ before_read 1 r xs v n
]

-- On a ring whose positions are within its size, `ring_put` puts as many characters as there are,
-- at most as many as `ring_get_rest` says; these are appended to the queue that the ring stands
-- for, and the ring stays valid. What `ring_get_rest` says is the size less one less the length
-- of the queue.
pub ring_put-Puts :
    (r : Ring) (xs : List ℕ)
    → IsValid r
    → Puts r xs (ring_put r xs) × (ring_get_rest r + length (contents r) + 1 ≡ r.size)
ring_put-Puts r xs v = (ring_put_lem r xs v, ring_get_rest_lem r v)
