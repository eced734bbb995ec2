-- ===== src/Kernel/Ipc/Answered.antt =====
-- Replies and sends keep the keys of the rendezvous apart.
use eotan.Prelude.{
  ℕ, ◌≢◌, refl, Bool, true, Option, none, some, List, [], ◌∷◌, ◌==◌, ltb, Bool-cases, Option-cases,
  inl, inr,
}
use eotan.Kernel.State.{e_sys, Thread, Kernel, caller, receiver, reply, wait_send}
use eotan.Kernel.Ipc.Message.{
  Copy, failed, release_rendezvous, ipc_call, call_end, key_of_ipc, to_be_received, create_ipc_tag,
}
use eotan.Kernel.Ipc.Send.{
  send_receiver, send_queued, send_port, send_to, ipc_send, reply_to, reply_queued, reply_found,
  ipc_reply,
}
use eotan.Kernel.Ipc.Keys.{IsKeyed, moved}
use eotan.Kernel.Ipc.Keyed.{
  leave-IsKeyed, release_rendezvous-IsKeyed, queued_call, replied, sent, gone, call_end-IsKeyed,
  ipc_call-Fine,
}

module _ (copy : Copy) where
  reply_to-IsKeyed :
      (key message size id : ℕ) (k : Kernel)
      → IsKeyed k
      → IsKeyed (reply_to copy key message size id (k.thread id) k).1
  unfolding reply_to
  reply_to-IsKeyed key message size id k v = elim (Option-cases (k.thread id)) [
    | inl n ↦ rw (n, reply_to) (moved k (record k { crashed = true }) refl v)
    | inr (t, e) ↦ elim (Option-cases (copy k.running message id t.wait_message size k.memory)) [
      | inl n ↦
          rw (e, reply_to, n)
            (leave-IsKeyed (release_rendezvous key k) (release_rendezvous-IsKeyed key k v))
      | inr (m, f) ↦ rw (e, reply_to, f) (replied key size id t m k v)
    ]
  ]

  reply_queued-IsKeyed :
      (key message size : ℕ) (ids : List ℕ) (k : Kernel)
      → IsKeyed k
      → IsKeyed (reply_queued copy key message size ids k).1
  unfolding reply_queued
  reply_queued-IsKeyed key message size [] k v = gone key k v
  reply_queued-IsKeyed key message size (id ∷ ids) k v = reply_to-IsKeyed key message size id k v

  reply_found-IsKeyed :
      (key message size : ℕ) (o : Option ℕ) (k : Kernel)
      → IsKeyed k
      → IsKeyed (reply_found copy key message size o k).1
  unfolding reply_found
  reply_found-IsKeyed key message size none k v =
      leave-IsKeyed (release_rendezvous key k) (release_rendezvous-IsKeyed key k v)
  reply_found-IsKeyed key message size (some max) k v = elim (Bool-cases (ltb max size)) [
    | inl y ↦ rw y (leave-IsKeyed (release_rendezvous key k) (release_rendezvous-IsKeyed key k v))
    | inr n ↦ rw n (reply_queued-IsKeyed key message size (k.wait_queue (reply key)) k v)
  ]

  ipc_reply-IsKeyed :
      (key message size : ℕ) (k : Kernel)
      → IsKeyed k
      → IsKeyed (ipc_reply copy key message size k).1
  unfolding ipc_reply
  ipc_reply-IsKeyed key message size k v =
      reply_found-IsKeyed key message size (k.replies key) (record k { serializing = true }) v

  send_receiver-IsKeyed :
      (tag message size id : ℕ) (k : Kernel)
      → IsKeyed k
      → IsKeyed (send_receiver copy tag message size id (k.thread id) k).1
  unfolding send_receiver
  send_receiver-IsKeyed tag message size id k v = elim (Option-cases (k.thread id)) [
    | inl n ↦ rw (n, send_receiver) (moved k (record k { crashed = true }) refl v)
    | inr (t, e) ↦ elim (Option-cases (copy k.running message id t.wait_message size k.memory)) [
      | inl n ↦ rw (e, send_receiver, n) (leave-IsKeyed k v)
      | inr (m, f) ↦ rw (e, send_receiver, f) (sent size tag id t m k v)
    ]
  ]

  send_queued-IsKeyed :
      (port message size : ℕ) (ids : List ℕ) (k : Kernel)
      → IsKeyed k
      → IsKeyed (send_queued copy port message size ids k).1
  unfolding send_queued
  send_queued-IsKeyed port message size [] k v =
      queued_call (caller port) (to_be_received wait_send message size (create_ipc_tag k.running 0))
        k v
  send_queued-IsKeyed port message size (id ∷ ids) k v = send_receiver-IsKeyed _ message size id k v

  send_port-IsKeyed :
      (port message size : ℕ) (o : Option Thread) (k : Kernel)
      → IsKeyed k
      → IsKeyed (send_port copy port message size o k).1
  unfolding send_port
  send_port-IsKeyed port message size none k v = leave-IsKeyed k v
  send_port-IsKeyed port message size (some t) k v = elim (Bool-cases t.port_opened) [
    | inl y ↦ elim (Bool-cases (ltb t.port_max_call size)) [
      | inl z ↦ rw (y, z) (leave-IsKeyed k v)
      | inr z ↦ rw (y, z) (send_queued-IsKeyed port message size (k.wait_queue (receiver port)) k v)
    ]
    | inr n ↦ rw n (leave-IsKeyed k v)
  ]

  ipc_send-IsKeyed :
      (tag message size : ℕ) (k : Kernel) → IsKeyed k → IsKeyed (ipc_send copy tag message size k).1
  unfolding ipc_send send_to
  ipc_send-IsKeyed tag message size k v = elim (Bool-cases (key_of_ipc tag == 0)) [
    | inl y ↦
        rw y (send_port-IsKeyed tag message size (k.thread tag) (record k { serializing = true }) v)
    | inr n ↦ rw n (ipc_reply-IsKeyed (key_of_ipc tag) message size k v)
  ]

  -- Where the free numbers of the reply sequence are just those from 1 to 1023 that are no key of a
  -- rendezvous, `ipc_call`, its end after the wait and `ipc_send`, replies included, leave it so;
  -- and `ipc_call` never fails with `E_SYS`, whatever the copying does and whether or not the slab
  -- has an entry.
  pub ipc_keys :
      (entry : Bool) (port tag message size key : ℕ) (k : Kernel)
      → IsKeyed k
      → IsKeyed (ipc_call copy entry port message size k).1
        × ((ipc_call copy entry port message size k).0 ≢ some (failed e_sys))
        × IsKeyed (call_end key k).1
        × IsKeyed (ipc_send copy tag message size k).1
  ipc_keys entry port tag message size key k v =
      let (a, b) = ipc_call-Fine copy entry port message size k v in
      (a, b, call_end-IsKeyed key k v, ipc_send-IsKeyed tag message size k v)
