-- ===== src/Set/Ring/Laws.antt =====
-- The ring buffer as a queue.
use Prim.Native.Nat.{min}
use eotan.Prelude.{
  ℕ, suc, ◌+◌, ◌-◌, ◌<◌, ◌≤◌, ◌≡◌, refl, sym, ap, ◌∙◌, true, false, List, ◌++◌, arith, ◌==◌, ltb,
  leb, length, length-append, if◌then◌else◌, take, drop, Bool-cases, inl, inr, test_eq, ne_test,
}
use eotan.Set.Ring.{Ring, ring_get_rest, span, get_rounds, ring_get}
use eotan.Set.Ring.Span.{
  length-span, take-span, drop-span, take-append, drop-append, take-nil, drop-nil,
}

pub record IsValid (r : Ring) : Type 0 where
  pub reads : r.read < r.size
  pub writes : r.write < r.size

-- The queue that a ring stands for: what was put and is not yet got.
unfoldable pub contents : Ring → List ℕ
contents r =
    if leb r.read r.write
    then span r.buf r.read (r.write - r.read)
    else span r.buf r.read (r.size - r.read) ++ span r.buf 0 r.write

pub ring_get_rest_lem : (r : Ring) → IsValid r → ring_get_rest r + length (contents r) + 1 ≡ r.size
unfolding ring_get_rest contents
ring_get_rest_lem r v = elim (Bool-cases (leb r.read r.write)) [
  | inl y ↦
      let e : r.read ≤ r.write = ground arith in
      simp (y, length-span) (omega (arith, v.reads, v.writes))
  | inr n ↦
      let e : r.write < r.read = ground arith in
      simp (n, length-append, length-span) (omega (arith, v.reads, v.writes))
]

-- What a get of `k` characters does to the queue.
abbrev pub Gets : Ring → ℕ → List ℕ × Ring → Type 0
Gets r k (out, r') =
    IsValid r'
    × (r'.size ≡ r.size)
    × (out ≡ take k (contents r))
    × (contents r' ≡ drop k (contents r))

straight :
    (fuel k : ℕ) (r : Ring)
    → IsValid r
    → leb r.read r.write ≡ true
    → Gets r k (get_rounds (suc fuel) r k)
unfolding get_rounds contents span
straight fuel k r v y =
    let e : r.read ≤ r.write = ground arith in
    elim (Bool-cases (k == 0)) [
      | inl z ↦ simp (z, y) (let k0 : k ≡ 0 = test_eq z in rw k0 (v, refl, refl, refl))
      | inr z ↦ elim (Bool-cases (r.write - r.read == 0)) [
        | inl w ↦
            let w0 : r.write - r.read ≡ 0 = test_eq w in
            simp (z, y, w) (simp w0 (v, refl, sym (take-nil k), sym (drop-nil k)))
        | inr w ↦
            let n : ℕ = min (r.write - r.read) k in
            let c : leb r.size (r.read + min (r.write - r.read) k) ≡ false =
              ground (arith, v.writes) in
            let d : leb (r.read + min (r.write - r.read) k) r.write ≡ true = ground arith in
            let f : r.write - (r.read + min (r.write - r.read) k)
                ≡ r.write - r.read - min (r.write - r.read) k =
              omega arith in
            simp (z, y, w, c, d, f, take-span, drop-span)
              (record { reads = ground arith; writes = v.writes }, refl, refl, refl)
      ]
    ]

from_start : (r : Ring) → contents (record r { read = 0 }) ≡ span r.buf 0 r.write
unfolding contents
from_start r =
    let a : leb 0 r.write ≡ true = ground arith in
    let m : r.write - 0 ≡ r.write = omega arith in simp (a, m) refl

-- A get that takes the whole of the first stretch.
module _ (b : ℕ → ℕ) (i n w k : ℕ) (h : n ≤ k) where
  front : take k (span b i n ++ span b 0 w) ≡ span b i n ++ take (k - n) (span b 0 w)
  front =
      let m : min n k ≡ n = omega arith in
      rw (take-append k (span b i n) (span b 0 w), take-span b i n k, length-span b i n, m) refl

  back : drop k (span b i n ++ span b 0 w) ≡ drop (k - n) (span b 0 w)
  unfolding span
  back =
      let m : min n k ≡ n = omega arith in
      let z : n - n ≡ 0 = omega arith in
      rw (drop-append k (span b i n) (span b 0 w), drop-span b i n k, length-span b i n, m, z) refl

wrapped :
    (fuel k : ℕ) (r : Ring)
    → IsValid r
    → leb r.read r.write ≡ false
    → Gets r k (get_rounds (suc (suc fuel)) r k)
unfolding get_rounds contents span
wrapped fuel k r v y =
    let e : r.write < r.read = ground arith in
    let w : (r.size - r.read == 0) ≡ false = ne_test (omega (arith, v.reads)) in
    elim (Bool-cases (k == 0)) [
      | inl z ↦ let k0 : k ≡ 0 = test_eq z in simp (z, y) (rw k0 (v, refl, refl, refl))
      | inr z ↦ elim (Bool-cases (ltb k (r.size - r.read))) [
        | inl short ↦
            let n : min (r.size - r.read) k ≡ k = ground arith in
            let c : leb r.size (r.read + k) ≡ false = ground arith in
            let d : leb (r.read + k) r.write ≡ false = ground arith in
            let g : k - k ≡ 0 = omega arith in
            let h : k - (r.size - r.read) ≡ 0 = ground arith in
            let m0 : min r.write 0 ≡ 0 = omega arith in
            let m1 : r.write - 0 ≡ r.write = omega arith in
            let f : r.size - (r.read + k) ≡ r.size - r.read - k = omega arith in
            simp (z, y, w, n, c, g)
              (simp
                (d, f, take-append, drop-append, take-span, drop-span, length-span, n, h, m0, m1)
                (record { reads = ground arith; writes = v.writes }, refl, refl, refl))
        | inr long ↦
            let n : min (r.size - r.read) k ≡ r.size - r.read = ground arith in
            let c : leb r.size (r.read + (r.size - r.read)) ≡ true = ground arith in
            let a : leb 0 r.write ≡ true = ground arith in
            let s =
              straight fuel (k - (r.size - r.read)) (record r { read = 0 })
                (record { reads = ground (arith, v.reads); writes = v.writes }) a in
            simp (z, y, w, n, c)
              (
                s.0,
                s.1,
                ap (λ u. span r.buf r.read (r.size - r.read) ++ u)
                      (s.2 ∙ ap (take (k - (r.size - r.read))) (from_start r))
                    ∙ sym (front r.buf r.read (r.size - r.read) r.write k (ground arith)),
                s.3
                    ∙ ap (drop (k - (r.size - r.read))) (from_start r)
                    ∙ sym (back r.buf r.read (r.size - r.read) r.write k (ground arith)),
              )
      ]
    ]

-- On a ring whose positions are within its size, `ring_get` gives the first characters of the
-- queue that the ring stands for, as many as are asked for and there, and takes just these away;
-- the ring stays valid.
pub ring_get-Gets : (r : Ring) (size : ℕ) → IsValid r → Gets r size (ring_get r size)
unfolding ring_get
ring_get-Gets r size v = elim (Bool-cases (leb r.read r.write)) [
  | inl y ↦ straight 1 size r v y
  | inr n ↦ wrapped 0 size r v n
]
