-- ===== src/Kernel/Ipc/Keyed.antt =====
-- Calls keep the keys of the rendezvous apart, and so do the steps that replies and sends share with them.
use eotan.Prelude.{
  ℕ, ◌≡◌, ◌≢◌, refl, ◌∙◌, Bool, true, false, Option, none, some, List, [], ◌∷◌, arith, ltb,
  Bool-cases, Option-cases, inl, inr,
}
use eotan.Set.Sequence
use eotan.Set.Sequence.{Sequence, get}
use eotan.Set.Sequence.Laws.{Granted, get-Granted, get_exhausted}
use eotan.Kernel.State.{e_sys, Thread, Kernel, WaitQueue, caller, reply, wait_call, set_thread}
use eotan.Kernel.Palloc.{Memory}
use eotan.Kernel.Sync.{waiting_remove, leave_serialize, leave_serialize_and_dispatch}
use eotan.Kernel.Ipc.Message.{
  Copy, Outcome, failed, enqueue, new_reply, release_rendezvous, block, deliver, call_receiver,
  call_queued, call_keyed, call_port, ipc_call, call_ended, call_end, is_ok, for_answer,
  to_be_received, create_ipc_tag,
}
use eotan.Kernel.Ipc.Keys.{
  IsKeyed, table, table-release, table-leave_serialize, table-wait, moved, took, gave_back, unused,
}

pub leave-IsKeyed : (k : Kernel) → IsKeyed k → IsKeyed (leave_serialize k)
leave-IsKeyed k v = moved k (leave_serialize k) (table-leave_serialize k) v

pub release_rendezvous-IsKeyed :
    (key : ℕ) (k : Kernel) → IsKeyed k → IsKeyed (release_rendezvous key k)
unfolding release_rendezvous
release_rendezvous-IsKeyed key k v = elim (Option-cases (k.replies key)) [
  | inl n ↦ rw (n, release_rendezvous) v
  | inr (max, e) ↦ rw (e, release_rendezvous) (gave_back k.replies k.reply_sequence key max v e)
]

table-block :
    (q : WaitQueue) (reason : Thread → Thread) (k : Kernel) → table (block q reason k) ≡ table k
unfolding block enqueue set_thread
table-block q reason k = elim (Option-cases (k.thread k.running)) [
  | inl n ↦ rw (n, block) refl
  | inr (t, e) ↦ rw (e, block) (table-wait _)
]

table-deliver : (id : ℕ) (t : Thread) (k : Kernel) → table (deliver id t k) ≡ table k
unfolding deliver waiting_remove set_thread
table-deliver id t k = table-release id _

-- Where a call ends at once, it is not with `E_SYS`.
abbrev Fine : Option Outcome × Kernel → Type 0
Fine (o, k) = IsKeyed k × (o ≢ some (failed e_sys))

answered_later :
    (key tag message size id : ℕ) (t : Thread) (m : Memory) (k : Kernel)
    → IsKeyed k
    → IsKeyed (
        block
          (reply key)
          (for_answer message)
          (deliver id (record t { wait_size = size; wait_key = tag }) (record k { memory = m })))
answered_later key tag message size id t m k v =
    moved k
      (block (reply key) (for_answer message)
        (deliver id (record t { wait_size = size; wait_key = tag }) (record k { memory = m })))
      (table-block _ _ _ ∙ table-deliver id _ _) v

pub queued_call :
    (q : WaitQueue) (reason : Thread → Thread) (k : Kernel) → IsKeyed k → IsKeyed (block q reason k)
queued_call q reason k v = moved k (block q reason k) (table-block q reason k) v

pub replied :
    (key size id : ℕ) (t : Thread) (m : Memory) (k : Kernel)
    → IsKeyed k
    → IsKeyed (
        leave_serialize_and_dispatch (
          release_rendezvous key
            (deliver id (record t { wait_size = size }) (record k { memory = m }))))
unfolding leave_serialize_and_dispatch
replied key size id t m k v =
    let k' = deliver id (record t { wait_size = size }) (record k { memory = m }) in
    leave-IsKeyed (record (release_rendezvous key k') { no_request = false })
      (release_rendezvous-IsKeyed key k' (moved k k' (table-deliver id _ _) v))

pub sent :
    (size tag id : ℕ) (t : Thread) (m : Memory) (k : Kernel)
    → IsKeyed k
    → IsKeyed (
        leave_serialize
          (deliver id (record t { wait_size = size; wait_key = tag }) (record k { memory = m })))
sent size tag id t m k v =
    let k' = deliver id (record t { wait_size = size; wait_key = tag }) (record k { memory = m }) in
    leave-IsKeyed k' (moved k k' (table-deliver id _ _) v)

pub gone :
    (key : ℕ) (k : Kernel)
    → IsKeyed k
    → IsKeyed (leave_serialize_and_dispatch (release_rendezvous key k))
unfolding leave_serialize_and_dispatch
gone key k v =
    leave-IsKeyed (record (release_rendezvous key k) { no_request = false })
      (release_rendezvous-IsKeyed key k v)

pub call_end-IsKeyed : (key : ℕ) (k : Kernel) → IsKeyed k → IsKeyed (call_end key k).1
unfolding call_end call_ended
call_end-IsKeyed key k v = elim (Option-cases (k.thread k.running)) [
  | inl n ↦ rw (n, call_ended) (moved k (record k { crashed = true }) refl v)
  | inr (t, e) ↦ elim (Bool-cases (is_ok t.wait_result)) [
    | inl y ↦ rw (e, call_ended, y) v
    | inr n ↦
        let k' = record k { serializing = true } in
        rw (e, call_ended, n)
          (leave-IsKeyed (release_rendezvous key k') (release_rendezvous-IsKeyed key k' v))
  ]
]

module _ (copy : Copy) where
  call_receiver-Fine :
      (key tag message size id : ℕ) (k : Kernel)
      → IsKeyed k
      → Fine (call_receiver copy key tag message size id (k.thread id) k)
  unfolding call_receiver
  call_receiver-Fine key tag message size id k v = elim (Option-cases (k.thread id)) [
    | inl n ↦ rw (n, call_receiver) (moved k (record k { crashed = true }) refl v, λ e. cc)
    | inr (t, e) ↦ elim (Option-cases (copy k.running message id t.wait_message size k.memory)) [
      | inl n ↦
          rw (e, call_receiver, n)
            (leave-IsKeyed (release_rendezvous key k) (release_rendezvous-IsKeyed key k v), λ f. cc)
      | inr (m, f) ↦
          rw (e, call_receiver, f) (answered_later key tag message size id t m k v, λ f. cc)
    ]
  ]

  call_queued-Fine :
      (port key message size : ℕ) (ids : List ℕ) (k : Kernel)
      → IsKeyed k
      → Fine (call_queued copy port key message size ids k)
  unfolding call_queued
  call_queued-Fine port key message size [] k v = (
    queued_call (caller port) (to_be_received wait_call message size (create_ipc_tag k.running key))
        k v,
    λ e. cc,
  )
  call_queued-Fine port key message size (id ∷ ids) k v =
      call_receiver-Fine key _ message size id k v

  call_keyed-Fine :
      (entry : Bool) (port : ℕ) (t : Thread) (message size key : ℕ) (k : Kernel) (s : Sequence)
      → IsKeyed k
      → Granted k.reply_sequence key s
      → Fine
          (call_keyed copy entry port t message size (some key) (record k { reply_sequence = s }))
  unfolding call_keyed new_reply
  call_keyed-Fine entry port t message size key k s v g =
      let (n, w) = unused k.replies k.reply_sequence s key v g in
      elim (Bool-cases entry) [
        | inl y ↦
            rw (y, n, call_keyed)
              (call_queued-Fine port key message size _
                (new_reply key t.port_max_reply (record k { reply_sequence = s }))
                (took k.replies k.reply_sequence s key t.port_max_reply v g))
        | inr y ↦
            rw y (leave-IsKeyed (record k { reply_sequence = Sequence.release s key }) w, λ f. cc)
      ]

  call_got-Fine :
      (entry : Bool) (port : ℕ) (t : Thread) (message size : ℕ) (k : Kernel)
      → IsKeyed k
      → Fine (
          call_keyed copy entry port t message size
            (get k.reply_sequence).0
            (record k { reply_sequence = (get k.reply_sequence).1 }))
  unfolding call_keyed
  call_got-Fine entry port t message size k v = elim (Bool-cases (ltb 0 k.reply_sequence.rest)) [
    | inl y ↦
        let (key, e, g) = get-Granted k.reply_sequence v.valid (ground arith) in
        rw e (call_keyed-Fine entry port t message size key k (get k.reply_sequence).1 v g)
    | inr n ↦ rw (get_exhausted k.reply_sequence (ground arith)) (leave-IsKeyed k v, λ e. cc)
  ]

  call_port-Fine :
      (entry : Bool) (port message size : ℕ) (o : Option Thread) (k : Kernel)
      → IsKeyed k
      → Fine (call_port copy entry port message size o k)
  unfolding call_port
  call_port-Fine entry port message size none k v = (leave-IsKeyed k v, λ e. cc)
  call_port-Fine entry port message size (some t) k v = elim (Bool-cases t.port_opened) [
    | inl y ↦ elim (Bool-cases (ltb t.port_max_call size)) [
      | inl z ↦ simp (y, z) (leave-IsKeyed k v, λ e. cc)
      | inr z ↦ simp (y, z) (call_got-Fine entry port t message size k v)
    ]
    | inr n ↦ simp n (leave-IsKeyed k v, λ e. cc)
  ]

  pub ipc_call-Fine :
      (entry : Bool) (port message size : ℕ) (k : Kernel)
      → IsKeyed k
      → Fine (ipc_call copy entry port message size k)
  unfolding ipc_call
  ipc_call-Fine entry port message size k v =
      call_port-Fine entry port message size (k.thread port) (record k { serializing = true }) v
