-- ===== src/Kernel/Ready/Dequeue.antt =====
-- `ready_dequeue` gives the first thread of the highest priority that has one.
use eotan.Prelude.{
  ℕ, zero, suc, ◌^◌, ◌≤◌, ◌<◌, ◌≡◌, ◌≢◌, refl, true, Option, none, some, List, [], ◌∷◌, arith, ◌==◌,
  ◌||◌, Bool-cases, inl, inr,
}
use eotan.Bits.{test_bit, clear_bit, count_ntz, count_bits}
use eotan.Bits.Laws.{test_bit-clear_bit, test_bit_zero}
use eotan.Bits.Count.{
  clear_bit-le, count_ntz_lem, count_bits-clear_bit, test_bit-count_ntz_below, count_bits-le,
  count_bits_ne_zero,
}
use eotan.Kernel.State.{Kernel}
use eotan.Kernel.Ready.{dequeue_from, dequeue_head, ready_dequeue}
use eotan.Kernel.Ready.Queues.{Queued, is_empty}

-- Every queue that holds a thread has its bit.
abbrev pub Marked : (ℕ → List ℕ) → ℕ → Type 0
Marked queues bits = (p : ℕ) → (is_empty (queues p) || test_bit bits p) ≡ true

-- What a search of the queues finds, and that the bits that it leaves still mark them.
pub data First (queues : ℕ → List ℕ) (r : Option ℕ × ℕ) : Type 0 where
  idle :
      (bits : ℕ)
      → ((p : ℕ) → is_empty (queues p) ≡ true)
      → bits < 2 ^ 32
      → Marked queues bits
      → r ≡ (none, bits)
      → First queues r
  first :
      (p x : ℕ) (rest : List ℕ) (bits : ℕ)
      → queues p ≡ x ∷ rest
      → ((q : ℕ) → q < p → is_empty (queues q) ≡ true)
      → bits < 2 ^ 32
      → Marked queues bits
      → r ≡ (some x, bits)
      → First queues r

clear_empty :
    (queues : ℕ → List ℕ) (bits p : ℕ)
    → Marked queues bits
    → is_empty (queues p) ≡ true
    → Marked queues (clear_bit bits p)
clear_empty queues bits p m e q = ground (arith, m q, test_bit-clear_bit bits p q)

-- The head of the queue that the search has come to, or what is found behind it.
head-First :
    (queues : ℕ → List ℕ) (bits : ℕ)
    → bits < 2 ^ 32
    → Marked queues bits
    → bits ≢ 0
    → (next : Option ℕ × ℕ) → ((is_empty (queues (count_ntz 32 bits)) ≡ true) → First queues next)
    → (l : List ℕ) → queues (count_ntz 32 bits) ≡ l
    → First queues (dequeue_head l next bits)
unfolding dequeue_head
head-First queues bits w m z next f [] e = f (rw e)
head-First queues bits w m z next f (x ∷ rest) e =
    first (count_ntz 32 bits) x rest bits e
      (λ q h. ground (arith, m q, test_bit-count_ntz_below 32 bits q h)) w m refl

dequeue_from-First :
    (fuel : ℕ) (queues : ℕ → List ℕ) (bits : ℕ)
    → count_bits 32 bits ≤ fuel
    → bits < 2 ^ 32
    → Marked queues bits
    → First queues (dequeue_from fuel queues bits)
unfolding dequeue_from
dequeue_from-First zero queues bits c w m = elim (Bool-cases (bits == 0)) [
  | inl z ↦
      let z' : bits ≡ 0 = ground arith in
      idle bits (λ p. ground (arith, m p, z', test_bit_zero p)) w m refl
  | inr nz ↦ absurd (omega (arith, count_bits_ne_zero 32 bits w (ground arith)))
]
dequeue_from-First (suc fuel) queues bits c w m = elim (Bool-cases (bits == 0)) [
  | inl z ↦
      let z' : bits ≡ 0 = ground arith in
      rw z (idle bits (λ p. ground (arith, m p, z', test_bit_zero p)) w m refl)
  | inr nz ↦
      let b = count_ntz_lem 32 bits w (ground arith) in
      let pri = count_ntz 32 bits in
      rw nz (
        head-First queues bits w m (ground arith) (dequeue_from fuel queues (clear_bit bits pri))
          (λ e.
            dequeue_from-First fuel queues (clear_bit bits pri)
              (omega (arith, count_bits-clear_bit 32 bits pri b.0 b.1))
              (omega (arith, clear_bit-le bits pri)) (clear_empty queues bits pri m e))
          (queues pri) refl)
]

-- How `ready_dequeue` ends: every queue is empty, or it gives the head of the first that is not.
pub data Found (k : Kernel) (r : Option ℕ × Kernel) : Type 0 where
  nobody :
      (b : ℕ)
      → ((p : ℕ) → is_empty (k.ready_task p) ≡ true)
      → Queued (record k { ready_bits = b })
      → r ≡ (none, record k { ready_bits = b })
      → Found k r
  head :
      (p x : ℕ) (rest : List ℕ) (b : ℕ)
      → k.ready_task p ≡ x ∷ rest
      → ((q : ℕ) → q < p → is_empty (k.ready_task q) ≡ true)
      → Queued (record k { ready_bits = b })
      → r ≡ (some x, record k { ready_bits = b })
      → Found k r

pub ready_dequeue-Found : (k : Kernel) → Queued k → Found k (ready_dequeue k)
unfolding ready_dequeue
ready_dequeue-Found k v =
    elim (dequeue_from-First 32 k.ready_task k.ready_bits (count_bits-le 32 k.ready_bits) v.word
      v.bits) [
        | idle b z w m e ↦ nobody b z (remarked b w m) (rw e)
        | first p x r b q l w m e ↦ head p x r b q l (remarked b w m) (rw e)
      ]
  where
    remarked : (b : ℕ) → b < 2 ^ 32 → Marked k.ready_task b → Queued (record k { ready_bits = b })
    remarked b w m = record { queues = v.queues; bits = m; word = w; priorities = v.priorities }
