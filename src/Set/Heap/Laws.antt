-- ===== src/Set/Heap/Laws.antt =====
-- The order of the heap, and what it holds.
use eotan.Prelude.{
  ℕ, zero, suc, ◌+◌, ◌-◌, ◌/◌, ◌≤◌, ◌<◌, ◌≡◌, refl, arith, ◌==◌, if◌then◌else◌, Bool-cases, inl,
  inr,
}
use eotan.Set.Heap.{put_cell, swap}

-- No value is below its parent's.
abbrev pub IsHeap : ℕ → (ℕ → ℕ) → Type 0
IsHeap n buf = (i : ℕ) → 0 < i → i < n → buf ((i - 1) / 2) ≤ buf i

-- How often a value is among the first `n`.
unfoldable pub count : ℕ → ℕ → (ℕ → ℕ) → ℕ
count v zero buf = 0
count v (suc n) buf = (if buf n == v then 1 else 0) + count v n buf

abbrev pub one_of : ℕ → ℕ → ℕ
one_of a v = if a == v then 1 else 0

pub count-put_outside :
    (v n i a : ℕ) (buf : ℕ → ℕ) → n ≤ i → count v n (put_cell buf i a) ≡ count v n buf
unfolding count
count-put_outside v zero i a buf l = refl
count-put_outside v (suc n) i a buf l =
    let h = count-put_outside v n i a buf (omega arith) in ground (arith, h)

pub count-put_cell :
    (v n i a : ℕ) (buf : ℕ → ℕ)
    → i < n
    → count v n (put_cell buf i a) + one_of (buf i) v ≡ count v n buf + one_of a v
unfolding count
count-put_cell v zero i a buf l = ground arith
count-put_cell v (suc n) i a buf l = elim (Bool-cases (n == i)) [
  | inl e ↦
      let same : i ≡ n = ground (arith, e) in
      let h = count-put_outside v n i a buf (omega arith) in ground (arith, h, e)
  | inr e ↦ let h = count-put_cell v n i a buf (ground (arith, e)) in ground (arith, h, e)
]

pub count-swap :
    (v n i j : ℕ) (buf : ℕ → ℕ) → i < n → j < n → count v n (swap i j buf) ≡ count v n buf
unfolding swap
count-swap v n i j buf l m =
    let h = count-put_cell v n i (buf j) buf l in
    let k = count-put_cell v n j (buf i) (put_cell buf i (buf j)) m in ground (arith, h, k)

-- The root is the least.
root_below : (k n i : ℕ) (buf : ℕ → ℕ) → IsHeap n buf → i < k → i < n → buf 0 ≤ buf i
root_below zero n i buf h j l = elim j [ ]
root_below (suc k) n zero buf h j l = omega arith
root_below (suc k) n (suc i) buf h j l =
    let e = h (suc i) (omega arith) l in
    let r = root_below k n ((suc i - 1) / 2) buf h (omega arith) (omega arith) in
    omega (arith, e, r)

pub root_least : (n i : ℕ) (buf : ℕ → ℕ) → IsHeap n buf → i < n → buf 0 ≤ buf i
root_least n i buf h l = root_below (suc i) n i buf h (omega arith) l

pub count_some : (v n : ℕ) (buf : ℕ → ℕ) → 0 < count v n buf → (i : ℕ) × (i < n) × (buf i ≡ v)
unfolding count
count_some v zero buf l = elim l [ ]
count_some v (suc n) buf l = elim (Bool-cases (buf n == v)) [
  | inl e ↦ (n, omega arith, ground (arith, e))
  | inr e ↦ let (i, m, p) = count_some v n buf (ground (arith, e, l)) in (i, omega (arith, m), p)
]
