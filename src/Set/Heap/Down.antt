-- ===== src/Set/Heap/Down.antt =====
-- A value sinks to its place.
use eotan.Prelude.{
  ℕ, zero, suc, ◌+◌, ◌-◌, ◌*◌, ◌/◌, ◌≤◌, ◌<◌, ◌≡◌, ◌≢◌, ◌⊎◌, refl, ◌∙◌, arith, ◌==◌, ◌&&◌, ltb,
  if◌then◌else◌, Bool-cases, inl, inr,
}
use eotan.Set.Heap.{swap, lesser, sift_down}
use eotan.Set.Heap.Laws.{IsHeap, count, count-swap}

-- A heap but for the value at `p`, which may be above its children's.
pub record IsSinking (p n : ℕ) (buf : ℕ → ℕ) : Type 0 where
  pub order : (i : ℕ) → 0 < i → i < n → (i - 1) / 2 ≢ p → buf ((i - 1) / 2) ≤ buf i
  pub over : (i : ℕ) → 0 < p → i < n → 0 < i → (i - 1) / 2 ≡ p → buf ((p - 1) / 2) ≤ buf i

-- The child that is chosen
record IsLesser (p n c : ℕ) (buf : ℕ → ℕ) : Type 0 where
  inside : c < n
  child : (c ≡ p * 2 + 1) ⊎ (c ≡ p * 2 + 2)
  least : (i : ℕ) → 0 < i → i < n → (i - 1) / 2 ≡ p → buf c ≤ buf i

children : (i p : ℕ) → 0 < i → (i - 1) / 2 ≡ p → (i ≡ p * 2 + 1) ⊎ (i ≡ p * 2 + 1 + 1)
children i p z h = omega arith

lesser-IsLesser : (p n : ℕ) (buf : ℕ → ℕ) → p * 2 + 1 < n → IsLesser p n (lesser p n buf) buf
unfolding lesser
lesser-IsLesser p n buf l =
    elim (Bool-cases (ltb (p * 2 + 1 + 1) n && ltb (buf (p * 2 + 1 + 1)) (buf (p * 2 + 1)))) [
      | inl e ↦ rw e (record {
        inside = ground (arith, e);
        child = inr (omega arith);
        least = λ i z k h. elim (children i p z h) [
          | inl s ↦ rw s (ground (arith, e))
          | inr s ↦ rw s (omega arith)
        ];
      })
      | inr e ↦ rw e (record {
        inside = l;
        child = inl (omega arith);
        least = λ i z k h. elim (children i p z h) [
          | inl s ↦ rw s (omega arith)
          | inr s ↦ rw s (ground (arith, e, k, s))
        ];
      })
    ]

sinks :
    (p n c : ℕ) (buf : ℕ → ℕ)
    → IsLesser p n c buf
    → buf c < buf p
    → IsSinking p n buf
    → IsSinking c n (swap p c buf)
unfolding swap
sinks p n c buf m l r = record {
  order = λ i z k e.
      ground (arith, r.order i z k, r.over c, r.over i, m.least i z k, m.child, m.inside);
  over = λ i z k y e. ground (arith, r.order i y k, m.child, m.inside);
}

-- Nothing is left to do.
sunk :
    (p n : ℕ) (buf : ℕ → ℕ)
    → ((i : ℕ) → 0 < i → i < n → (i - 1) / 2 ≡ p → buf p ≤ buf i)
    → IsSinking p n buf
    → IsHeap n buf
sunk p n buf h r i z l = elim (Bool-cases ((i - 1) / 2 == p)) [
  | inl s ↦ let same : (i - 1) / 2 ≡ p = ground (arith, s) in rw same (h i z l same)
  | inr s ↦ r.order i z l (ground (arith, s))
]

sift_down_lem :
    (k p n : ℕ) (buf : ℕ → ℕ)
    → sift_down (suc k) p n buf ≡ (
        if ltb (p * 2 + 1) n && ltb (buf (lesser p n buf)) (buf p)
        then sift_down k (lesser p n buf) n (swap p (lesser p n buf) buf)
        else buf)
unfolding sift_down
sift_down_lem k p n buf = refl

pub sift_down-IsHeap :
    (k p n : ℕ) (buf : ℕ → ℕ) → n ≤ k + p → IsSinking p n buf → IsHeap n (sift_down k p n buf)
unfolding sift_down
sift_down-IsHeap zero p n buf l r = sunk p n buf (λ i z m e. omega arith) r
sift_down-IsHeap (suc k) p n buf l r =
    rw (sift_down_lem k p n buf) (elim (Bool-cases (ltb (p * 2 + 1) n)) [
      | inr o ↦ rw o (sunk p n buf (λ i z m e. ground (arith, o, e)) r)
      | inl o ↦
          let m = lesser-IsLesser p n buf (ground (arith, o)) in
          elim (Bool-cases (ltb (buf (lesser p n buf)) (buf p))) [
            | inl e ↦
                rw (o, e)
                  (sift_down-IsHeap k (lesser p n buf) n (swap p (lesser p n buf) buf)
                    (ground (arith, m.child, l))
                    (sinks p n (lesser p n buf) buf m (ground (arith, e)) r))
            | inr e ↦
                rw (o, e)
                  (sunk p n buf (λ i z k t. let h = m.least i z k t in ground (arith, e, h)) r)
          ]
    ])

pub count-sift_down :
    (k p n v : ℕ) (buf : ℕ → ℕ) → p < n → count v n (sift_down k p n buf) ≡ count v n buf
unfolding sift_down
count-sift_down zero p n v buf l = refl
count-sift_down (suc k) p n v buf l =
    rw (sift_down_lem k p n buf) (elim (Bool-cases (ltb (p * 2 + 1) n)) [
      | inr o ↦ rw o refl
      | inl o ↦
          let m = lesser-IsLesser p n buf (ground (arith, o)) in
          elim (Bool-cases (ltb (buf (lesser p n buf)) (buf p))) [
            | inl e ↦
                rw (o, e)
                  (count-sift_down k (lesser p n buf) n v (swap p (lesser p n buf) buf) m.inside
                    ∙ count-swap v n p (lesser p n buf) buf l m.inside)
            | inr e ↦ rw (o, e) refl
          ]
    ])
