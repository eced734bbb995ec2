-- ===== src/Kernel/Ready/Queues.antt =====
-- The ready queues hold exactly the threads that are ready, each at its priority, and every queue
-- that holds one has its bit.
use eotan.Prelude.{
  ℕ, ◌^◌, ◌<◌, ◌≡◌, refl, Bool, true, false, Option, none, some, List, [], ◌∷◌, ◌++◌, arith, ◌==◌,
  ◌&&◌, ◌||◌, leb,
}
use eotan.Bits.{test_bit}
use eotan.Bits.Laws.{test_bit-set_bit}
use eotan.Bits.Count.{set_bit-lt}
use eotan.Kernel.State.{Thread, Kernel, put, set_thread, is_ready, max_priority}
use eotan.Kernel.State.Lists.{elem, remove, elem-append, elem-remove}
use eotan.Kernel.Ready.{ready_enqueue, queue_remove}

-- Whether a thread stands in the queue of priority `p`.
abbrev pub ready_at : Option Thread → ℕ → Bool
ready_at none p = false
ready_at (some t) p = is_ready t.status && t.priority == p

abbrev pub has_priority : Option Thread → Bool
has_priority none = true
has_priority (some t) = leb t.priority max_priority && leb t.attr_priority max_priority

abbrev pub is_empty : List ℕ → Bool
is_empty [] = true
is_empty (x ∷ xs) = false

pub record Queued (k : Kernel) : Type 0 where
  pub queues : (p id : ℕ) → elem id (k.ready_task p) ≡ ready_at (k.thread id) p
  pub bits : (p : ℕ) → (is_empty (k.ready_task p) || test_bit k.ready_bits p) ≡ true
  pub word : k.ready_bits < 2 ^ 32
  pub priorities : (id : ℕ) → has_priority (k.thread id) ≡ true

-- A change that leaves a thread as ready as it was, at its priority.
pub set_thread-Queued :
    (k : Kernel) (id : ℕ) (t t' : Thread)
    → Queued k
    → k.thread id ≡ some t
    → is_ready t'.status ≡ is_ready t.status
    → t'.priority ≡ t.priority
    → has_priority (some t') ≡ true
    → Queued (set_thread id t' k)
unfolding set_thread
set_thread-Queued k id t t' v e r p h = record {
  queues = λ q j. ground (arith, v.queues q j);
  bits = v.bits;
  word = v.word;
  priorities = λ j. ground (arith, v.priorities j);
}

is_empty_append : (xs : List ℕ) (x : ℕ) → is_empty (xs ++ x ∷ []) ≡ false
is_empty_append [] x = refl
is_empty_append (y ∷ xs) x = refl

is_empty-remove : (x : ℕ) (xs : List ℕ) → is_empty xs ≡ true → is_empty (remove x xs) ≡ true
unfolding remove
is_empty-remove x [] h = refl
is_empty-remove x (y ∷ xs) h = cc

-- A thread that was in no queue becomes ready.
pub ready_enqueue-Queued :
    (k : Kernel) (id : ℕ) (t : Thread)
    → Queued k
    → ((p : ℕ) → ready_at (k.thread id) p ≡ false)
    → is_ready t.status ≡ true
    → has_priority (some t) ≡ true
    → Queued (ready_enqueue t.priority id (set_thread id t k))
unfolding ready_enqueue set_thread
ready_enqueue-Queued k id t v n r h = record {
  queues = λ q j. ground (arith, v.queues q j, n q, elem-append j id (k.ready_task q));
  bits = λ q. ground (
    arith,
    v.bits q,
    is_empty_append (k.ready_task q) id,
    test_bit-set_bit k.ready_bits t.priority q,
  );
  word = set_bit-lt 32 k.ready_bits t.priority (ground arith) v.word;
  priorities = λ j. ground (arith, v.priorities j);
}

-- A thread leaves its queue and is ready no more.
pub queue_remove-Queued :
    (k : Kernel) (id : ℕ) (t : Thread)
    → Queued k
    → is_ready t.status ≡ false
    → has_priority (some t) ≡ true
    → Queued (queue_remove id (set_thread id t k))
unfolding queue_remove set_thread
queue_remove-Queued k id t v r h = record {
  queues = λ q j. ground (arith, v.queues q j, elem-remove j id (k.ready_task q));
  bits = λ q. ground (arith, v.bits q, is_empty-remove id (k.ready_task q));
  word = v.word;
  priorities = λ j. ground (arith, v.priorities j);
}

-- A new thread that is not ready.
pub new-Queued :
    (k : Kernel) (id : ℕ) (t : Thread)
    → Queued k
    → ((p : ℕ) → ready_at (k.thread id) p ≡ false)
    → is_ready t.status ≡ false
    → has_priority (some t) ≡ true
    → Queued (set_thread id t k)
unfolding set_thread
new-Queued k id t v n r h = record {
  queues = λ q j. ground (arith, v.queues q j, n q);
  bits = v.bits;
  word = v.word;
  priorities = λ j. ground (arith, v.priorities j);
}

-- A thread that is not ready is taken out of the tree.
pub drop-Queued :
    (k : Kernel) (id : ℕ)
    → Queued k
    → ((p : ℕ) → ready_at (k.thread id) p ≡ false)
    → Queued (record k { thread = put k.thread id none })
drop-Queued k id v n = record {
  queues = λ q j. ground (arith, v.queues q j, n q);
  bits = v.bits;
  word = v.word;
  priorities = λ j. ground (arith, v.priorities j);
}
