-- ===== src/Kernel/Sync/Dispatch.antt =====
-- `dispatch` runs the first thread of the highest priority that has one.
use eotan.Prelude.{
  ℕ, ◌<◌, ◌≡◌, refl, true, false, Option, none, some, List, [], ◌∷◌, arith, if◌then◌else◌, ap, ◌∙◌,
}
use eotan.Kernel.State.{Status, Thread, Kernel, set_thread, set_status}
use eotan.Kernel.State.Lists.{elem}
use eotan.Kernel.Ready.Queues.{Queued, ready_at, is_empty}
use eotan.Kernel.Ready.Dequeue.{ready_dequeue-Found, nobody, head}
use eotan.Kernel.Ready.{ready_enqueue}
use eotan.Kernel.Sync.{
  preempt, start_delay, switch_to, resched, dispatch, release_thread, notify_thread, notify_body,
  waiting_remove, leave_serialize, leave_serialize_and_dispatch, skippable, port_delay,
  event_interrupt,
}
use eotan.Kernel.Sync.Queues.{start_delay-Queued, Queued-fields}

-- The running thread heads the queue of its priority, and no higher priority has a thread.
pub record HighestFirst (k : Kernel) : Type 0 where
  pub priority : ℕ
  pub behind : List ℕ
  pub heads : k.ready_task priority ≡ k.running ∷ behind
  pub higher : (q : ℕ) → q < priority → is_empty (k.ready_task q) ≡ true

-- The thread switched to is running, and the one that gave way is not, if they differ.
abbrev pub status_of : Option Thread → Status → Status
status_of none s = s
status_of (some t) s = t.status

module _ (k : Kernel) (x : ℕ) where
  switch_to_keeps :
      ((switch_to (some x, k)).running ≡ x)
      × ((switch_to (some x, k)).ready_task ≡ k.ready_task)
      × ((switch_to (some x, k)).crashed ≡ k.crashed)
  unfolding switch_to set_status set_thread preempt
  switch_to_keeps = ground arith

not_elem_empty : (id : ℕ) (xs : List ℕ) → is_empty xs ≡ true → elem id xs ≡ false
unfolding elem
not_elem_empty id [] h = refl
not_elem_empty id (x ∷ xs) h = cc

crashed-start_delay : (k : Kernel) → (start_delay k).crashed ≡ k.crashed
unfolding start_delay notify_body notify_thread release_thread set_thread waiting_remove
    ready_enqueue
crashed-start_delay k = ground arith

resched-HighestFirst :
    (k : Kernel) (id p : ℕ)
    → Queued k
    → ready_at ((start_delay (record k { no_request = true })).thread id) p ≡ true
    → HighestFirst (resched k) × ((resched k).crashed ≡ k.crashed)
unfolding resched
resched-HighestFirst k id p v r =
    let k' = start_delay (record k { no_request = true }) in
    let v' : Queued k' = start_delay-Queued _ (Queued-fields k _ v refl refl refl) in
    elim (ready_dequeue-Found k' v') [
      | nobody b z w e ↦ cc (not_elem_empty id (k'.ready_task p) (z p), v'.queues p id)
      | head q x rest b l lower w e ↦
          let (at, same, ok) = switch_to_keeps (record k' { ready_bits = b }) x in
          rw e (
            record {
              priority = q;
              behind = rest;
              heads = rw (same, at) l;
              higher = λ j h. rw same (lower j h);
            },
            ok ∙ crashed-start_delay (record k { no_request = true }),
          )
    ]

dispatch-resched : (k : Kernel) → k.serializing ≡ false → dispatch k ≡ resched k
unfolding dispatch
dispatch-resched k s = ap (λ b. if b then record k { no_request = false } else resched k) s

-- `dispatch` in a kernel with exact ready queues, when no call is being served and some thread is
-- ready once the delay thread has been notified, leaves the running thread first of its priority
-- with no thread at a higher one, and reads no null pointer.
pub dispatch-HighestFirst :
    (k : Kernel) (id p : ℕ)
    → Queued k
    → k.serializing ≡ false
    → ready_at ((start_delay (record k { no_request = true })).thread id) p ≡ true
    → HighestFirst (dispatch k) × ((dispatch k).crashed ≡ k.crashed)
dispatch-HighestFirst k id p v s r = rw (dispatch-resched k s) (resched-HighestFirst k id p v r)

undelayed : (k : Kernel) → k.delay_thread_start ≡ false → start_delay k ≡ k
unfolding start_delay
undelayed k d =
    ap
      (λ b.
        if b
        then (notify_body port_delay event_interrupt (record k { delay_thread_start = false })).1
        else k)
      d

-- A call that ends by a forced dispatch, outside interrupts.
pub leave_serialize_and_dispatch-HighestFirst :
    (k : Kernel) (id p : ℕ)
    → Queued k
    → k.interrupt_nest ≡ 0
    → k.delay_thread_start ≡ false
    → ready_at (k.thread id) p ≡ true
    → HighestFirst (leave_serialize_and_dispatch k)
      × ((leave_serialize_and_dispatch k).crashed ≡ k.crashed)
unfolding leave_serialize_and_dispatch leave_serialize
leave_serialize_and_dispatch-HighestFirst k id p v n d r =
    let k' : Kernel = record k { no_request = false; serializing = false } in
    let v' : Queued k' = Queued-fields k k' v refl refl refl in
    let skips : skippable k' ≡ false = rw n in
    rw skips
      (dispatch-HighestFirst k' id p v' refl (rw (undelayed (record k' { no_request = true }) d) r))
