-- ===== src/Kernel/Ipc/Transfer.antt =====
-- Calls keep the ready queues in order, and so do the steps that they share with the other operations.
use eotan.Prelude.{
  ℕ, ◌≡◌, refl, Bool, Option, none, some, List, [], ◌∷◌, arith, ltb, Bool-cases, Option-cases, inl,
  inr,
}
use eotan.Kernel.State.{Thread, Kernel, WaitQueue, set_thread}
use eotan.Kernel.Ready.Queues.{Queued, set_thread-Queued}
use eotan.Kernel.Sync.{waiting_remove}
use eotan.Kernel.Sync.Queues.{Queued-fields, release-Queued, leave_serialize-Queued, wait-Queued}
use eotan.Kernel.Ipc.Message.{
  Copy, enqueue, new_reply, release_rendezvous, block, deliver, call_receiver, call_queued,
  call_keyed, call_port, ipc_call, call_ended, call_end, is_ok,
}

pub enqueue-Queued : (q : WaitQueue) (id : ℕ) (k : Kernel) → Queued k → Queued (enqueue q id k)
unfolding enqueue
enqueue-Queued q id k v = Queued-fields k _ v refl refl refl

pub release_rendezvous-Queued :
    (key : ℕ) (k : Kernel) → Queued k → Queued (release_rendezvous key k)
unfolding release_rendezvous
release_rendezvous-Queued key k v = elim (Option-cases (k.replies key)) [
  | inl n ↦ rw (n, release_rendezvous) v
  | inr (max, e) ↦ rw (e, release_rendezvous) (Queued-fields k _ v refl refl refl)
]

-- A change of a thread that leaves its status and its priorities.
pub same-Queued :
    (id : ℕ) (t t' : Thread) (k : Kernel)
    → Queued k
    → k.thread id ≡ some t
    → t'.status ≡ t.status
    → t'.priority ≡ t.priority
    → t'.attr_priority ≡ t.attr_priority
    → Queued (set_thread id t' k)
same-Queued id t t' k v e s p a =
    set_thread-Queued k id t t' v e (ground arith) p (ground (arith, v.priorities id))

pub deliver-Queued :
    (id : ℕ) (t t' : Thread) (k : Kernel)
    → Queued k
    → k.thread id ≡ some t
    → t'.status ≡ t.status
    → t'.priority ≡ t.priority
    → t'.attr_priority ≡ t.attr_priority
    → Queued (deliver id t' k)
unfolding deliver waiting_remove
deliver-Queued id t t' k v e s p a =
    release-Queued _ id
      (same-Queued id t t' (waiting_remove id k) (Queued-fields k _ v refl refl refl) e s p a)

pub block-Queued :
    (q : WaitQueue) (reason : Thread → Thread) (k : Kernel)
    → Queued k
    → ((t : Thread) → (reason t).status ≡ t.status)
    → ((t : Thread) → (reason t).priority ≡ t.priority)
    → ((t : Thread) → (reason t).attr_priority ≡ t.attr_priority)
    → Queued (block q reason k)
unfolding block enqueue
block-Queued q reason k v s p a = elim (Option-cases (k.thread k.running)) [
  | inl n ↦ rw (n, block) (Queued-fields k _ v refl refl refl)
  | inr (t, e) ↦
      rw (e, block)
        (wait-Queued _ (
          same-Queued k.running t _ (enqueue q k.running k) (enqueue-Queued q _ k v) e (s t) (p t)
            (a t)))
]

module _ (copy : Copy) where
  call_receiver-Queued :
      (key tag message size id : ℕ) (k : Kernel)
      → Queued k
      → Queued (call_receiver copy key tag message size id (k.thread id) k).1
  unfolding call_receiver
  call_receiver-Queued key tag message size id k v = elim (Option-cases (k.thread id)) [
    | inl n ↦ rw (n, call_receiver) (Queued-fields k _ v refl refl refl)
    | inr (t, e) ↦ elim (Option-cases (copy k.running message id t.wait_message size k.memory)) [
      | inl n ↦
          rw (e, call_receiver, n) (leave_serialize-Queued _ (release_rendezvous-Queued key k v))
      | inr (m, f) ↦
          rw (e, call_receiver, f)
            (block-Queued _ _ _
              (deliver-Queued id t _ _ (Queued-fields k _ v refl refl refl) e refl refl refl)
              (λ t. refl) (λ t. refl) (λ t. refl))
    ]
  ]

  call_queued-Queued :
      (port key message size : ℕ) (ids : List ℕ) (k : Kernel)
      → Queued k
      → Queued (call_queued copy port key message size ids k).1
  unfolding call_queued
  call_queued-Queued port key message size [] k v =
      block-Queued _ _ k v (λ t. refl) (λ t. refl) (λ t. refl)
  call_queued-Queued port key message size (id ∷ ids) k v =
      call_receiver-Queued key _ message size id k v

  call_keyed-Queued :
      (entry : Bool) (port : ℕ) (t : Thread) (message size : ℕ) (key : Option ℕ) (k : Kernel)
      → Queued k
      → Queued (call_keyed copy entry port t message size key k).1
  unfolding call_keyed new_reply
  call_keyed-Queued entry port t message size none k v = leave_serialize-Queued k v
  call_keyed-Queued entry port t message size (some key) k v = elim (Bool-cases entry) [
    | inl y ↦ elim (Option-cases (k.replies key)) [
      | inl n ↦
          rw (y, n, call_keyed)
            (call_queued-Queued port key message size _ _ (Queued-fields k _ v refl refl refl))
      | inr (max, e) ↦
          rw (y, e, call_keyed) (leave_serialize-Queued _ (Queued-fields k _ v refl refl refl))
    ]
    | inr n ↦ rw n (leave_serialize-Queued _ (Queued-fields k _ v refl refl refl))
  ]

  call_port-Queued :
      (entry : Bool) (port message size : ℕ) (o : Option Thread) (k : Kernel)
      → Queued k
      → Queued (call_port copy entry port message size o k).1
  unfolding call_port call_keyed
  call_port-Queued entry port message size none k v = leave_serialize-Queued k v
  call_port-Queued entry port message size (some t) k v = elim (Bool-cases t.port_opened) [
    | inl y ↦ elim (Bool-cases (ltb t.port_max_call size)) [
      | inl z ↦ rw (y, z) (leave_serialize-Queued k v)
      | inr z ↦
          rw (y, z)
            (call_keyed-Queued entry port t message size _ _ (Queued-fields k _ v refl refl refl))
    ]
    | inr n ↦ rw n (leave_serialize-Queued k v)
  ]

  pub ipc_call-Queued :
      (entry : Bool) (port message size : ℕ) (k : Kernel)
      → Queued k
      → Queued (ipc_call copy entry port message size k).1
  unfolding ipc_call
  ipc_call-Queued entry port message size k v =
      call_port-Queued entry port message size _ _ (Queued-fields k _ v refl refl refl)

pub call_end-Queued : (key : ℕ) (k : Kernel) → Queued k → Queued (call_end key k).1
unfolding call_end call_ended
call_end-Queued key k v = elim (Option-cases (k.thread k.running)) [
  | inl n ↦ rw (n, call_ended) (Queued-fields k _ v refl refl refl)
  | inr (t, e) ↦ elim (Bool-cases (is_ok t.wait_result)) [
    | inl y ↦ rw (e, call_ended, y) v
    | inr n ↦
        rw (e, call_ended, n)
          (leave_serialize-Queued _
            (release_rendezvous-Queued key _ (Queued-fields k _ v refl refl refl)))
  ]
]
