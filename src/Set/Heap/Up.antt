-- ===== src/Set/Heap/Up.antt =====
-- A value rises to its place.
use eotan.Prelude.{
  ℕ, zero, suc, ◌-◌, ◌/◌, ◌≤◌, ◌<◌, ◌≡◌, ◌≢◌, refl, ◌∙◌, false, arith, ◌==◌, ◌&&◌, ltb,
  if◌then◌else◌, Bool-cases, inl, inr,
}
use eotan.Set.Heap.{swap, sift_up}
use eotan.Set.Heap.Laws.{IsHeap, count, count-swap}

-- A heap but for the value at `c`, which may be below its parent's.
pub record IsRising (c n : ℕ) (buf : ℕ → ℕ) : Type 0 where
  pub inside : c < n
  pub order : (i : ℕ) → 0 < i → i < n → i ≢ c → buf ((i - 1) / 2) ≤ buf i
  pub over : (i : ℕ) → 0 < c → i < n → 0 < i → (i - 1) / 2 ≡ c → buf ((c - 1) / 2) ≤ buf i

rises :
    (c n : ℕ) (buf : ℕ → ℕ)
    → 0 < c
    → buf c < buf ((c - 1) / 2)
    → IsRising c n buf
    → IsRising ((c - 1) / 2) n (swap ((c - 1) / 2) c buf)
unfolding swap
rises c n buf z l r = record {
  inside = omega (arith, r.inside);
  order = λ i y m k. ground (arith, r.order i y m, r.over i z m y, r.order i);
  over = λ i y m t e. ground (arith, r.order i t m, r.order ((c - 1) / 2));
}

-- Nothing is left to do.
risen :
    (c n : ℕ) (buf : ℕ → ℕ)
    → (ltb 0 c && ltb (buf c) (buf ((c - 1) / 2))) ≡ false
    → IsRising c n buf
    → IsHeap n buf
risen c n buf e r i z l = elim (Bool-cases (i == c)) [
  | inl s ↦ let same : i ≡ c = ground (arith, s) in rw same (ground (arith, e, same, z))
  | inr s ↦ r.order i z l (ground (arith, s))
]

sift_up_lem :
    (k c : ℕ) (buf : ℕ → ℕ)
    → sift_up (suc k) c buf ≡ (
        if ltb 0 c && ltb (buf c) (buf ((c - 1) / 2))
        then sift_up k ((c - 1) / 2) (swap ((c - 1) / 2) c buf)
        else buf)
unfolding sift_up
sift_up_lem k c buf = refl

pub sift_up-IsHeap :
    (k c n : ℕ) (buf : ℕ → ℕ) → c ≤ k → IsRising c n buf → IsHeap n (sift_up k c buf)
unfolding sift_up
sift_up-IsHeap zero c n buf l r = risen c n buf (ground (arith, l)) r
sift_up-IsHeap (suc k) c n buf l r =
    rw (sift_up_lem k c buf) (elim (Bool-cases (ltb 0 c && ltb (buf c) (buf ((c - 1) / 2)))) [
      | inl e ↦ rw e (
          sift_up-IsHeap k ((c - 1) / 2) n (swap ((c - 1) / 2) c buf) (ground (arith, e))
            (rises c n buf (ground (arith, e)) (ground (arith, e)) r))
      | inr e ↦ rw e (risen c n buf e r)
    ])

pub count-sift_up :
    (k c n v : ℕ) (buf : ℕ → ℕ) → c < n → count v n (sift_up k c buf) ≡ count v n buf
unfolding sift_up
count-sift_up zero c n v buf l = refl
count-sift_up (suc k) c n v buf l =
    rw (sift_up_lem k c buf) (elim (Bool-cases (ltb 0 c && ltb (buf c) (buf ((c - 1) / 2)))) [
      | inl e ↦ rw e (
          count-sift_up k ((c - 1) / 2) n v (swap ((c - 1) / 2) c buf) (omega (arith, l))
          ∙ count-swap v n ((c - 1) / 2) c buf (omega (arith, l)) l)
      | inr e ↦ rw e refl
    ])
