-- ===== src/Kernel/Sync/Queues.antt =====
-- Releasing, notifying, waiting and switching keep the ready queues in order.
use eotan.Prelude.{
  ℕ, ◌≡◌, refl, sym, true, false, none, some, List, ◌∷◌, arith, ◌==◌, Bool-cases, Option-cases, inl,
  inr, ◌∙◌,
}
use eotan.Kernel.State.{Status, run, e_rlwai, Thread, Kernel, set_thread, set_status, is_ready}
use eotan.Kernel.State.Lists.{remove, elem_head}
use eotan.Kernel.Ready.Queues.{
  Queued, ready_at, has_priority, set_thread-Queued, ready_enqueue-Queued, queue_remove-Queued,
}
use eotan.Kernel.Ready.Dequeue.{ready_dequeue-Found, nobody, head}
use eotan.Kernel.Sync.{
  clear_wai, is_none_set, is_dmt, is_notified, skippable, release_thread, release, waiting_remove,
  notify_thread, notify_body, start_delay, preempt, switch_to, resched, dispatch, leave_serialize,
  leave_serialize_and_dispatch, wait, notify,
}

-- A change of anything but the threads and the queues.
pub Queued-fields :
    (k k' : Kernel)
    → Queued k
    → k'.thread ≡ k.thread
    → k'.ready_task ≡ k.ready_task
    → k'.ready_bits ≡ k.ready_bits
    → Queued k'
Queued-fields k k' v a b c = record {
  queues = λ p id. rw (a, b) (v.queues p id);
  bits = λ p. rw (b, c) (v.bits p);
  word = rw c v.word;
  priorities = λ id. rw a (v.priorities id);
}

module _ (k : Kernel) (id : ℕ) (t t' : Thread) (v : Queued k) (e : k.thread id ≡ some t)
    (p : t'.priority ≡ t.priority) (a : t'.attr_priority ≡ t.attr_priority) where
  same_priority : (s : Status) → has_priority (some (record t' { status = s })) ≡ true
  same_priority s = ground (arith, v.priorities id)

  release_thread-Queued : t'.status ≡ t.status → Queued (release_thread id t' k)
  unfolding release_thread
  release_thread-Queued s = elim (Bool-cases (is_none_set (clear_wai t'.status))) [
    | inl z ↦ rw z (
        ready_enqueue-Queued k id _ v (λ q. ground (arith, v.queues q id)) refl
          (ground (arith, v.priorities id)))
    | inr n ↦
        rw n (set_thread-Queued k id t _ v e (ground arith) p (ground (arith, v.priorities id)))
  ]

pub release-Queued : (k : Kernel) (id : ℕ) → Queued k → Queued (release id k)
unfolding release
release-Queued k id v = elim (Option-cases (k.thread id)) [
  | inl n ↦ rw (n, release) (Queued-fields k _ v refl refl refl)
  | inr (t, e) ↦ rw (e, release) (release_thread-Queued k id t t v e refl refl refl)
]

notify_thread-Queued :
    (id flag : ℕ) (t : Thread) (k : Kernel)
    → Queued k
    → k.thread id ≡ some t
    → Queued (notify_thread id flag t k).1
unfolding notify_thread waiting_remove
notify_thread-Queued id flag t k v e = elim (Bool-cases (is_dmt t.status)) [
  | inl d ↦ rw d v
  | inr a ↦ elim (Bool-cases (is_notified t.status t.wait_type)) [
    | inl y ↦
        rw (a, y)
          (release_thread-Queued (record k { wait_queue = λ q. remove id (k.wait_queue q) }) id t
            (record t { port_flag = 0; wait_result = e_rlwai }) (Queued-fields k _ v refl refl refl)
            e refl refl refl)
    | inr n ↦ rw (a, n) (set_thread-Queued k id t _ v e refl refl (ground (arith, v.priorities id)))
  ]
]

pub notify_body-Queued : (id flag : ℕ) (k : Kernel) → Queued k → Queued (notify_body id flag k).1
unfolding notify_body
notify_body-Queued id flag k v = elim (Option-cases (k.thread id)) [
  | inl n ↦ rw (n, notify_body) v
  | inr (t, e) ↦ rw (e, notify_body) (notify_thread-Queued id flag t k v e)
]

pub start_delay-Queued : (k : Kernel) → Queued k → Queued (start_delay k)
unfolding start_delay
start_delay-Queued k v = elim (Bool-cases k.delay_thread_start) [
  | inl y ↦ rw y (notify_body-Queued 2 1 _ (Queued-fields k _ v refl refl refl))
  | inr n ↦ rw n (Queued-fields k _ v refl refl refl)
]

preempt-Queued : (k : Kernel) → Queued k → Queued (preempt k)
unfolding preempt
preempt-Queued k v = elim (Option-cases (k.thread k.running)) [
  | inl n ↦ rw (n, preempt) v
  | inr (t, e) ↦
      rw (e, preempt)
        (set_thread-Queued k k.running t _ v e (ground arith) refl
          (ground (arith, v.priorities k.running)))
]

-- The thread that is switched to is not the one that gives way.
thread-preempt :
    (k : Kernel) (id : ℕ) → (id == k.running) ≡ false → (preempt k).thread id ≡ k.thread id
unfolding preempt set_thread
thread-preempt k id h = ground arith

set_status-Queued :
    (k : Kernel) (id p : ℕ) (s : Status)
    → Queued k
    → ready_at (k.thread id) p ≡ true
    → is_ready s ≡ true
    → Queued (set_status id s k)
unfolding set_status
set_status-Queued k id p s v r h = elim (Option-cases (k.thread id)) [
  | inl n ↦ rw (n, set_status) v
  | inr (t, e) ↦
      rw (e, set_status)
        (set_thread-Queued k id t _ v e (ground arith) refl (ground (arith, v.priorities id)))
]

stuck-Queued : (k : Kernel) → Queued k → Queued (switch_to (none, k))
unfolding switch_to
stuck-Queued k v = Queued-fields k _ v refl refl refl

pub head_ready :
    (k : Kernel)
    → Queued k
    → (p x : ℕ) (rest : List ℕ) → k.ready_task p ≡ x ∷ rest
    → ready_at (k.thread x) p ≡ true
head_ready k v p x rest e = sym (v.queues p x) ∙ rw e (elem_head x rest)

switch_to-Queued :
    (k : Kernel) (next p : ℕ)
    → Queued k
    → ready_at (k.thread next) p ≡ true
    → Queued (switch_to (some next, k))
unfolding switch_to
switch_to-Queued k next p v r = elim (Bool-cases (next == k.running)) [
  | inl y ↦ rw y v
  | inr n ↦ rw n (
      Queued-fields _ _
        (set_status-Queued (preempt k) next p run (preempt-Queued k v)
          (rw (thread-preempt k next n) r) refl)
        refl refl refl)
]

pub resched-Queued : (k : Kernel) → Queued k → Queued (resched k)
unfolding resched
resched-Queued k v =
    let k' = start_delay (record k { no_request = true }) in
    let v' : Queued k' = start_delay-Queued _ (Queued-fields k _ v refl refl refl) in
    elim (ready_dequeue-Found k' v') [
      | nobody b z w e ↦ rw e (stuck-Queued _ w)
      | head p x rest b q l w e ↦ rw e (switch_to-Queued _ x p w (head_ready k' v' p x rest q))
    ]

pub dispatch-Queued : (k : Kernel) → Queued k → Queued (dispatch k)
unfolding dispatch
dispatch-Queued k v = elim (Bool-cases k.serializing) [
  | inl y ↦ simp y (Queued-fields k _ v refl refl refl)
  | inr n ↦ simp n (resched-Queued k v)
]

pub leave_serialize-Queued : (k : Kernel) → Queued k → Queued (leave_serialize k)
unfolding leave_serialize
leave_serialize-Queued k v =
    let k' : Kernel = record k { serializing = false } in
    let v' : Queued k' = Queued-fields k k' v refl refl refl in
    elim (Bool-cases (skippable k')) [ inl y ↦ rw y v' | inr n ↦ rw n (dispatch-Queued k' v') ]

pub leave_serialize_and_dispatch-Queued :
    (k : Kernel) → Queued k → Queued (leave_serialize_and_dispatch k)
unfolding leave_serialize_and_dispatch
leave_serialize_and_dispatch-Queued k v =
    leave_serialize-Queued _ (Queued-fields k (record k { no_request = false }) v refl refl refl)

-- `ipc_notify` keeps the queues.
pub notify-Queued : (id flag : ℕ) (k : Kernel) → Queued k → Queued (notify id flag k).1
unfolding notify
notify-Queued id flag k v = leave_serialize-Queued _ (
    notify_body-Queued id flag (record k { serializing = true })
      (Queued-fields k (record k { serializing = true }) v refl refl refl))

-- `wait` keeps the queues.
pub wait-Queued : (k : Kernel) → Queued k → Queued (wait k)
unfolding wait
wait-Queued k v = elim (Option-cases (k.thread k.running)) [
  | inl n ↦ rw (n, wait) (Queued-fields k _ v refl refl refl)
  | inr (t, e) ↦
      rw (e, wait)
        (leave_serialize_and_dispatch-Queued _
          (queue_remove-Queued k k.running _ v refl (ground (arith, v.priorities k.running))))
]
