-- ===== src/Set/Heap/Queue.antt =====
-- The heap as a queue that gives the least value first.
use mathlib.Core.Path.{subst}
use eotan.Prelude.{
  ℕ, zero, suc, ◌+◌, ◌-◌, ◌≤◌, ◌<◌, ◌≡◌, refl, sym, ap, ◌∙◌, Bool, false, arith, ◌==◌, ltb, leb,
  if◌then◌else◌, Bool-cases, inl, inr,
}
use eotan.Set.Heap.{Heap, put_cell, sift_down, heap_enqueue, heap_dequeue, heap_head}
use eotan.Set.Heap.Laws.{
  IsHeap, count, one_of, count-put_cell, count-put_outside, root_least, count_some,
}
use eotan.Set.Heap.Up.{IsRising, sift_up-IsHeap, count-sift_up}
use eotan.Set.Heap.Down.{IsSinking, sift_down-IsHeap, count-sift_down}

pub record IsValid (h : Heap) : Type 0 where
  pub order : IsHeap h.cnt h.buf
  pub bound : h.cnt ≤ h.max

-- How often the heap holds a value.
abbrev pub holds : ℕ → Heap → ℕ
holds v h = count v h.cnt h.buf

pub record Puts (val : ℕ) (h : Heap) (done : Bool) (h' : Heap) : Type 0 where
  pub accepted : done ≡ ltb h.cnt h.max
  pub valid : IsValid h'
  pub max : h'.max ≡ h.max
  pub cnt : h'.cnt ≡ (if done then h.cnt + 1 else h.cnt)
  pub content : (v : ℕ) → holds v h' ≡ (if done then holds v h + one_of val v else holds v h)

last-IsRising : (n val : ℕ) (buf : ℕ → ℕ) → IsHeap n buf → IsRising n (n + 1) (put_cell buf n val)
last-IsRising n val buf h = record {
  inside = omega arith;
  order = λ i z l e. ground (arith, h i z);
  over = λ i z l y e. omega arith;
}

count_last :
    (n val v : ℕ) (buf : ℕ → ℕ)
    → count v (n + 1) (put_cell buf n val) ≡ count v n buf + one_of val v
unfolding count
count_last n val v buf =
    let h = count-put_outside v n n val buf (omega arith) in
    let next : n + 1 ≡ suc n = omega arith in rw next (ground (arith, h))

-- On a valid heap, `heap_enqueue` accepts a value just if the heap has less than `max` values; it
-- adds this value once and changes nothing else of what the heap holds, and the heap stays valid,
-- its values in the order of a heap.
pub heap_enqueue-Puts :
    (val : ℕ) (h : Heap) → IsValid h → Puts val h (heap_enqueue val h).0 (heap_enqueue val h).1
unfolding heap_enqueue
heap_enqueue-Puts val h v = elim (Bool-cases (leb h.max h.cnt)) [
  | inl e ↦ simp e (record {
    accepted = ground (arith, e);
    valid = v;
    max = refl;
    cnt = refl;
    content = λ x. refl;
  })
  | inr e ↦ simp e (record {
    accepted = ground (arith, e);
    valid = record {
      order =
          sift_up-IsHeap h.cnt h.cnt (h.cnt + 1) (put_cell h.buf h.cnt val) (omega arith)
            (last-IsRising h.cnt val h.buf v.order);
      bound = ground (arith, e);
    };
    max = refl;
    cnt = refl;
    content = λ x.
        count-sift_up h.cnt h.cnt (h.cnt + 1) x (put_cell h.buf h.cnt val) (omega arith)
        ∙ count_last h.cnt val x h.buf;
  })
]

-- What taking the least value leaves.
pub record Takes (h : Heap) (val : ℕ) (h' : Heap) : Type 0 where
  pub head : val ≡ heap_head h
  pub valid : IsValid h'
  pub max : h'.max ≡ h.max
  pub cnt : h'.cnt + 1 ≡ h.cnt
  pub least : (v : ℕ) → 0 < holds v h → val ≤ v
  pub content : (v : ℕ) → holds v h' + one_of val v ≡ holds v h

first-IsSinking : (n a : ℕ) (buf : ℕ → ℕ) → IsHeap (n + 1) buf → IsSinking 0 n (put_cell buf 0 a)
first-IsSinking n a buf h = record {
  order = λ i z l e. ground (arith, h i z);
  over = λ i z. elim z [ ];
}

count_first :
    (n v : ℕ) (buf : ℕ → ℕ)
    → count v n (put_cell buf 0 (buf n)) + one_of (buf 0) v ≡ count v (n + 1) buf
unfolding count
count_first n v buf =
    let next : n + 1 ≡ suc n = omega arith in
    rw next (elim (Bool-cases (n == 0)) [
      | inl e ↦ let same : n ≡ 0 = ground (arith, e) in rw same (ground arith)
      | inr e ↦ let h = count-put_cell v n 0 (buf n) buf (ground (arith, e)) in ground (arith, h)
    ])

count_sunk : (n v : ℕ) (buf : ℕ → ℕ) → count v n (sift_down n 0 n buf) ≡ count v n buf
unfolding sift_down
count_sunk zero v buf = refl
count_sunk (suc n) v buf = count-sift_down (suc n) 0 (suc n) v buf (omega arith)

taken :
    (n max : ℕ) (buf : ℕ → ℕ)
    → IsValid (record { cnt = n + 1; max = max; buf = buf })
    → Takes
        (record { cnt = n + 1; max = max; buf = buf })
        (buf 0)
        (record { cnt = n; max = max; buf = sift_down n 0 n (put_cell buf 0 (buf n)) })
unfolding heap_head
taken n max buf v = record {
  head = ground arith;
  valid = record {
    order =
        sift_down-IsHeap n 0 n (put_cell buf 0 (buf n)) (omega arith)
          (first-IsSinking n (buf n) buf v.order);
    bound = omega (arith, v.bound);
  };
  max = refl;
  cnt = refl;
  least = λ x l.
      let (i, m, e) = count_some x (n + 1) buf l in rw (← e) (root_least (n + 1) i buf v.order m);
  content = λ x.
      ap (λ c. c + one_of (buf 0) x) (count_sunk n x (put_cell buf 0 (buf n)))
      ∙ count_first n x buf;
}

taken_of :
    (m n max : ℕ) (buf : ℕ → ℕ)
    → m ≡ n + 1
    → IsValid (record { cnt = m; max = max; buf = buf })
    → Takes
        (record { cnt = m; max = max; buf = buf })
        (buf 0)
        (record { cnt = n; max = max; buf = sift_down n 0 n (put_cell buf 0 (buf n)) })
taken_of m n max buf e v =
    subst
      (λ k.
        Takes (record { cnt = k; max = max; buf = buf }) (buf 0)
          (record { cnt = n; max = max; buf = sift_down n 0 n (put_cell buf 0 (buf n)) }))
      (sym e)
      (taken n max buf (subst (λ k. IsValid (record { cnt = k; max = max; buf = buf })) e v))

-- Of a valid heap that is not empty, `heap_dequeue` gives the value that `heap_head` shows, which
-- is at most every value in the heap; it takes one such value out and no other, and the heap
-- stays valid, its values in the order of a heap.
pub heap_dequeue-Takes :
    (h : Heap) → IsValid h → 0 < h.cnt → Takes h (heap_dequeue h).0 (heap_dequeue h).1
unfolding heap_dequeue
heap_dequeue-Takes h v l =
    let some_left : (h.cnt == 0) ≡ false = ground (arith, l) in
    simp some_left (taken_of h.cnt (h.cnt - 1) h.max h.buf (omega arith) v)
