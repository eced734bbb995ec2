-- ===== src/Kernel/Ipc/Sending.antt =====
-- Receives, sends and replies keep the ready queues in order.
use eotan.Prelude.{
  ℕ, ◌≡◌, refl, Option, none, some, List, [], ◌∷◌, ◌==◌, ltb, Bool-cases, Option-cases, inl, inr,
}
use eotan.Kernel.State.{
  WaitType, wait_none, wait_flag, wait_reply, wait_receive, Thread, Kernel, wait_call, wait_send,
}
use eotan.Kernel.Ready.Queues.{Queued}
use eotan.Kernel.Sync.{waiting_remove}
use eotan.Kernel.Sync.Queues.{
  Queued-fields, release-Queued, leave_serialize-Queued, leave_serialize_and_dispatch-Queued,
}
use eotan.Kernel.Ipc.Transfer.{
  release_rendezvous-Queued, same-Queued, deliver-Queued, block-Queued, enqueue-Queued,
}
use eotan.Kernel.Ipc.Message.{Copy, enqueue, key_of_ipc}
use eotan.Kernel.Ipc.Send.{
  accept_call, accept, receive_ended, receive_end, receive_from, receive_queued, receive_port,
  receive_running, ipc_receive, reply_to, reply_queued, reply_found, ipc_reply, send_receiver,
  send_queued, send_port, send_to, ipc_send,
}

receive_ended-Queued : (o : Option Thread) (k : Kernel) → Queued k → Queued (receive_ended o k).1
unfolding receive_ended
receive_ended-Queued none k v = Queued-fields k _ v refl refl refl
receive_ended-Queued (some t) k v = leave_serialize-Queued k v

pub receive_end-Queued : (k : Kernel) → Queued k → Queued (receive_end k).1
unfolding receive_end
receive_end-Queued k v = receive_ended-Queued _ _ (Queued-fields k _ v refl refl refl)

accept-Queued :
    (w : WaitType) (id : ℕ) (t : Thread) (k : Kernel)
    → Queued k
    → k.thread id ≡ some t
    → Queued (accept w id t k)
unfolding accept accept_call enqueue
accept-Queued wait_none id t k v e = v
accept-Queued wait_flag id t k v e = v
accept-Queued wait_call id t k v e = elim (Option-cases (k.replies (key_of_ipc t.wait_key))) [
  | inl n ↦ rw (n, accept_call) (Queued-fields k _ v refl refl refl)
  | inr (max, f) ↦
      rw (f, accept_call)
        (same-Queued id t _ (enqueue _ id k) (enqueue-Queued _ id k v) e refl refl refl)
]
accept-Queued wait_reply id t k v e = v
accept-Queued wait_receive id t k v e = v
accept-Queued wait_send id t k v e = release-Queued k id v

module _ (copy : Copy) where
  receive_from-Queued :
      (message id : ℕ) (k : Kernel)
      → Queued k
      → Queued (receive_from copy message id (k.thread id) k).1
  unfolding receive_from waiting_remove
  receive_from-Queued message id k v = elim (Option-cases (k.thread id)) [
    | inl n ↦ rw (n, receive_from) (Queued-fields k _ v refl refl refl)
    | inr (t, e) ↦
        elim (Option-cases (copy id t.wait_message k.running message t.wait_size k.memory)) [
          | inl n ↦ rw (e, receive_from, n) (leave_serialize-Queued k v)
          | inr (m, f) ↦
              rw (e, receive_from, f)
                (leave_serialize-Queued _
                  (accept-Queued t.wait_type id t _ (Queued-fields k _ v refl refl refl) e))
        ]
  ]

  receive_queued-Queued :
      (port message : ℕ) (ids : List ℕ) (k : Kernel)
      → Queued k
      → Queued (receive_queued copy port message ids k).1
  unfolding receive_queued
  receive_queued-Queued port message [] k v =
      block-Queued _ _ k v (λ t. refl) (λ t. refl) (λ t. refl)
  receive_queued-Queued port message (id ∷ ids) k v = receive_from-Queued message id k v

  receive_port-Queued :
      (port message : ℕ) (o : Option Thread) (k : Kernel)
      → Queued k
      → Queued (receive_port copy port message o k).1
  unfolding receive_port
  receive_port-Queued port message none k v = leave_serialize-Queued k v
  receive_port-Queued port message (some t) k v = elim (Bool-cases t.port_opened) [
    | inl y ↦ rw y (receive_queued-Queued port message _ k v)
    | inr n ↦ rw n (leave_serialize-Queued k v)
  ]

  receive_running-Queued :
      (port message : ℕ) (k : Kernel)
      → Queued k
      → Queued (receive_running copy port message (k.thread k.running) k).1
  unfolding receive_running
  receive_running-Queued port message k v = elim (Option-cases (k.thread k.running)) [
    | inl n ↦ rw (n, receive_running) (Queued-fields k _ v refl refl refl)
    | inr (t, e) ↦ elim (Bool-cases (t.port_flag == 0)) [
      | inl y ↦ rw (e, receive_running, y) (receive_port-Queued port message _ k v)
      | inr n ↦
          rw (e, receive_running, n)
            (leave_serialize-Queued _ (same-Queued _ t _ k v e refl refl refl))
    ]
  ]

  pub ipc_receive-Queued :
      (port message : ℕ) (k : Kernel) → Queued k → Queued (ipc_receive copy port message k).1
  unfolding ipc_receive
  ipc_receive-Queued port message k v =
      receive_running-Queued port message _ (Queued-fields k _ v refl refl refl)

  reply_to-Queued :
      (key message size id : ℕ) (k : Kernel)
      → Queued k
      → Queued (reply_to copy key message size id (k.thread id) k).1
  unfolding reply_to
  reply_to-Queued key message size id k v = elim (Option-cases (k.thread id)) [
    | inl n ↦ rw (n, reply_to) (Queued-fields k _ v refl refl refl)
    | inr (t, e) ↦ elim (Option-cases (copy k.running message id t.wait_message size k.memory)) [
      | inl n ↦ rw (e, reply_to, n) (leave_serialize-Queued _ (release_rendezvous-Queued key k v))
      | inr (m, f) ↦
          rw (e, reply_to, f)
            (leave_serialize_and_dispatch-Queued _ (
              release_rendezvous-Queued key _
                (deliver-Queued id t _ _ (Queued-fields k _ v refl refl refl) e refl refl refl)))
    ]
  ]

  reply_queued-Queued :
      (key message size : ℕ) (ids : List ℕ) (k : Kernel)
      → Queued k
      → Queued (reply_queued copy key message size ids k).1
  unfolding reply_queued
  reply_queued-Queued key message size [] k v =
      leave_serialize_and_dispatch-Queued _ (release_rendezvous-Queued key k v)
  reply_queued-Queued key message size (id ∷ ids) k v = reply_to-Queued key message size id k v

  reply_found-Queued :
      (key message size : ℕ) (o : Option ℕ) (k : Kernel)
      → Queued k
      → Queued (reply_found copy key message size o k).1
  unfolding reply_found
  reply_found-Queued key message size none k v =
      leave_serialize-Queued _ (release_rendezvous-Queued key k v)
  reply_found-Queued key message size (some max) k v = elim (Bool-cases (ltb max size)) [
    | inl y ↦ rw y (leave_serialize-Queued _ (release_rendezvous-Queued key k v))
    | inr n ↦ rw n (reply_queued-Queued key message size _ k v)
  ]

  send_receiver-Queued :
      (tag message size id : ℕ) (k : Kernel)
      → Queued k
      → Queued (send_receiver copy tag message size id (k.thread id) k).1
  unfolding send_receiver
  send_receiver-Queued tag message size id k v = elim (Option-cases (k.thread id)) [
    | inl n ↦ rw (n, send_receiver) (Queued-fields k _ v refl refl refl)
    | inr (t, e) ↦ elim (Option-cases (copy k.running message id t.wait_message size k.memory)) [
      | inl n ↦ rw (e, send_receiver, n) (leave_serialize-Queued k v)
      | inr (m, f) ↦
          rw (e, send_receiver, f)
            (leave_serialize-Queued _
              (deliver-Queued id t _ _ (Queued-fields k _ v refl refl refl) e refl refl refl))
    ]
  ]

  send_queued-Queued :
      (port message size : ℕ) (ids : List ℕ) (k : Kernel)
      → Queued k
      → Queued (send_queued copy port message size ids k).1
  unfolding send_queued
  send_queued-Queued port message size [] k v =
      block-Queued _ _ k v (λ t. refl) (λ t. refl) (λ t. refl)
  send_queued-Queued port message size (id ∷ ids) k v = send_receiver-Queued _ message size id k v

  send_port-Queued :
      (port message size : ℕ) (o : Option Thread) (k : Kernel)
      → Queued k
      → Queued (send_port copy port message size o k).1
  unfolding send_port
  send_port-Queued port message size none k v = leave_serialize-Queued k v
  send_port-Queued port message size (some t) k v = elim (Bool-cases t.port_opened) [
    | inl y ↦ elim (Bool-cases (ltb t.port_max_call size)) [
      | inl z ↦ rw (y, z) (leave_serialize-Queued k v)
      | inr z ↦ rw (y, z) (send_queued-Queued port message size _ k v)
    ]
    | inr n ↦ rw n (leave_serialize-Queued k v)
  ]

  pub ipc_send-Queued :
      (tag message size : ℕ) (k : Kernel) → Queued k → Queued (ipc_send copy tag message size k).1
  unfolding ipc_send send_to ipc_reply
  ipc_send-Queued tag message size k v = elim (Bool-cases (key_of_ipc tag == 0)) [
    | inl y ↦ rw y (send_port-Queued tag message size _ _ (Queued-fields k _ v refl refl refl))
    | inr n ↦
        rw n (
          reply_found-Queued (key_of_ipc tag) message size _ _ (Queued-fields k _ v refl refl refl))
  ]
