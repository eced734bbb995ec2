-- ===== src/Kernel/Ready.antt =====
-- The ready queues, kernel/ready.c, without `dispatch`, which is in Kernel/Sync.
-- Bit `p` of `ready_bits` is set when the queue of priority `p` may hold a thread.
pub mod Queues
pub mod Dequeue
use eotan.Prelude.{
  ℕ, zero, suc, ◌+◌, ◌-◌, ◌%◌, ◌^◌, Bool, true, false, Option, none, some, List, [], ◌∷◌, ◌++◌,
  ◌==◌, ◌&&◌, not, if◌then◌else◌,
}
use eotan.Bits.{set_bit, clear_bit, count_ntz}
use eotan.Kernel.State.{Thread, Kernel, set_thread, is_kthread, time_quantum}
use eotan.Kernel.State.Lists.{remove}

abbrev pub put_queue : (ℕ → List ℕ) → ℕ → List ℕ → ℕ → List ℕ
put_queue queues p q j = if p == j then q else queues j

-- `1 << pri` of a priority below 32, and `list_enqueue`
unfoldable pub ready_enqueue : ℕ → ℕ → Kernel → Kernel
ready_enqueue pri id k = record k {
  ready_task = put_queue k.ready_task pri (k.ready_task pri ++ id ∷ []);
  ready_bits = set_bit k.ready_bits pri;
}

-- `list_remove(&(th->queue))`: the link stands in at most one of the queues.
unfoldable pub queue_remove : ℕ → Kernel → Kernel
queue_remove id k = record k { ready_task = λ p. remove id (k.ready_task p) }

-- What `ready_rotate` does to the queue of one priority between its two serialize calls.
unfoldable pub rotate : ℕ → List ℕ → List ℕ
rotate thread [] = []
rotate thread (x ∷ []) = x ∷ []
rotate thread (x ∷ y ∷ rest) = if x == thread then y ∷ (rest ++ x ∷ []) else x ∷ y ∷ rest

unfoldable pub ready_rotate : ℕ → ℕ → Kernel → Kernel
ready_rotate pri thread k = record k {
  ready_task = put_queue k.ready_task pri (rotate thread (k.ready_task pri));
}

-- `tick` of the running thread; the second part is the call of `ready_rotate` that it leaves to
-- `icall->handle`, by its arguments.  The quantum is a 32-bit word.
unfoldable pub tick_thread : ℕ → Thread → Kernel → Kernel × Option (ℕ × ℕ)
tick_thread id t k =
    let q = (t.quantum + (2 ^ 32 - 1)) % 2 ^ 32 in
    if is_kthread t
    then (k, none)
    else if q == 0
    then (set_thread id (record t { quantum = time_quantum }) k, some (t.priority, id))
    else (set_thread id (record t { quantum = q }) k, none)

unfoldable pub tick : Kernel → Kernel × Option (ℕ × ℕ)
unfolding tick_thread
tick k = elim (k.thread k.running) [ none ↦ (k, none) | some t ↦ tick_thread k.running t k ]

-- The head of a queue that has one ends the loop.
dequeue_head : List ℕ → Option ℕ × ℕ → ℕ → Option ℕ × ℕ
dequeue_head [] next bits = next
dequeue_head (x ∷ _) next bits = (some x, bits)

-- The loop of `ready_dequeue`, which drops the bits of empty queues.  It ends by a word of no
-- bits within 32 rounds; `fuel` is what remains of them.
unfoldable pub dequeue_from : ℕ → (ℕ → List ℕ) → ℕ → Option ℕ × ℕ
unfolding dequeue_head
dequeue_from zero queues bits = (none, bits)
dequeue_from (suc fuel) queues bits =
    let pri = count_ntz 32 bits in
    let next = dequeue_from fuel queues (clear_bit bits pri) in
    if bits == 0 then (none, bits) else dequeue_head (queues pri) next bits

unfoldable pub ready_dequeue : Kernel → Option ℕ × Kernel
unfolding dequeue_from dequeue_head
ready_dequeue k =
    let (next, bits) = dequeue_from 32 k.ready_task k.ready_bits in
    (next, record k { ready_bits = bits })
