-- ===== src/Kernel/Ipc/Laws.antt =====
-- What a reply does to the caller, and what it does where it is refused.
use Prim.Native.Nat.{bit_or, bit_or-bitwise}
use eotan.Prelude.{
  ℕ, ◌/◌, ◌^◌, ◌<◌, ◌≤◌, ◌≡◌, refl, ap, ◌∙◌, true, Option, none, some, List, ◌∷◌, arith, ge_test,
  Option-cases, inl, inr, lt_test, ne_test,
}
use eotan.Kernel.Palloc.{Memory}
use eotan.Kernel.State.{rdy, wai, wait_none, e_ok, e_par, e_obj, Thread, Kernel, reply, set_thread}
use eotan.Kernel.State.Lists.{elem, elem-append}
use eotan.Kernel.Ready.{ready_enqueue}
use eotan.Kernel.Sync.{
  release, release_thread, waiting_remove, leave_serialize, leave_serialize_and_dispatch,
}
use eotan.Kernel.Ipc.Message.{Copy, key_of_ipc, create_ipc_tag, release_rendezvous, deliver}
use eotan.Kernel.Ipc.Send.{reply_to, reply_queued, reply_found, ipc_reply, ipc_send}

zero_or : (n : ℕ) → bit_or 0 n ≡ n
zero_or n = λ i. bit_or-bitwise 0 n i

key_of_ipc-create_ipc_tag :
    (port key : ℕ) → port < 2 ^ 16 → key < 2 ^ 16 → key_of_ipc (create_ipc_tag port key) ≡ key
unfolding key_of_ipc create_ipc_tag
key_of_ipc-create_ipc_tag port key p q =
    let e : port / 2 ^ 16 ≡ 0 = omega arith in rw (e, zero_or key) (omega arith)

released :
    (id : ℕ) (t : Thread) (k : Kernel)
    → t.status ≡ wai
    → (deliver id t k).thread id ≡ some (record t { wait_type = wait_none; status = rdy })
unfolding deliver release release_thread ready_enqueue set_thread waiting_remove
released id t k w = ground arith

released_ready :
    (id : ℕ) (t : Thread) (k : Kernel)
    → t.status ≡ wai
    → elem id ((deliver id t k).ready_task t.priority) ≡ true
unfolding deliver release release_thread ready_enqueue set_thread waiting_remove
released_ready id t k w = ground (arith, elem-append id id (k.ready_task t.priority))

keeps_ready : (key : ℕ) (k : Kernel) → (release_rendezvous key k).ready_task ≡ k.ready_task
unfolding release_rendezvous
keeps_ready key k = elim (Option-cases (k.replies key)) [
  | inl n ↦ rw (n, release_rendezvous) refl
  | inr (max, e) ↦ rw (e, release_rendezvous) refl
]

keeps_queues : (key : ℕ) (k : Kernel) → (release_rendezvous key k).wait_queue ≡ k.wait_queue
unfolding release_rendezvous
keeps_queues key k = elim (Option-cases (k.replies key)) [
  | inl n ↦ rw (n, release_rendezvous) refl
  | inr (max, e) ↦ rw (e, release_rendezvous) refl
]

forgets :
    (key max : ℕ) (k : Kernel)
    → k.replies key ≡ some max
    → (release_rendezvous key k).replies key ≡ none
unfolding release_rendezvous
forgets key max k e = rw (e, release_rendezvous) (ground arith)

keeps_threads : (key : ℕ) (k : Kernel) → (release_rendezvous key k).thread ≡ k.thread
unfolding release_rendezvous
keeps_threads key k = elim (Option-cases (k.replies key)) [
  | inl n ↦ rw (n, release_rendezvous) refl
  | inr (max, e) ↦ rw (e, release_rendezvous) refl
]

keeps_memory : (key : ℕ) (k : Kernel) → (release_rendezvous key k).memory ≡ k.memory
unfolding release_rendezvous
keeps_memory key k = elim (Option-cases (k.replies key)) [
  | inl n ↦ rw (n, release_rendezvous) refl
  | inr (max, e) ↦ rw (e, release_rendezvous) refl
]

deliver-replies : (id : ℕ) (t : Thread) (k : Kernel) → (deliver id t k).replies ≡ k.replies
unfolding deliver release release_thread ready_enqueue set_thread waiting_remove
deliver-replies id t k = ground arith

deliver-memory : (id : ℕ) (t : Thread) (k : Kernel) → (deliver id t k).memory ≡ k.memory
unfolding deliver release release_thread ready_enqueue set_thread waiting_remove
deliver-memory id t k = ground arith

-- What an accepted answer leaves to the dispatch.
pub record Answered (k : Kernel) (id key size : ℕ) (t : Thread) (m : Memory) : Type 0 where
  pub at : k.thread id ≡ some (record t { wait_type = wait_none; wait_size = size; status = rdy })
  pub ready : elem id (k.ready_task t.priority) ≡ true
  pub over : k.replies key ≡ none
  pub message : k.memory ≡ m

module _ (copy : Copy) (key message size max id : ℕ) (rest : List ℕ) (t : Thread) (m : Memory)
    (k : Kernel) (found : k.replies key ≡ some max) (fits : size ≤ max)
    (queue : k.wait_queue (reply key) ≡ id ∷ rest) (thread : k.thread id ≡ some t)
    (copied : copy k.running message id t.wait_message size k.memory ≡ some m) where
  -- the state that the answer leaves to the dispatch
  abbrev replied : Kernel
  replied =
      release_rendezvous key
        (deliver id (record t { wait_size = size }) (record k { serializing = true; memory = m }))

  replied-Answered : t.status ≡ wai → Answered replied id key size t m
  unfolding elem
  replied-Answered w =
      let k' = record k { serializing = true; memory = m } in
      let t' = record t { wait_size = size } in
      record {
        at = rw (keeps_threads key (deliver id t' k')) (released id t' k' w);
        ready = rw (keeps_ready key (deliver id t' k')) (released_ready id t' k' w);
        over = forgets key max (deliver id t' k') (rw (deliver-replies id t' k') found);
        message = rw (keeps_memory key (deliver id t' k')) (deliver-memory id t' k');
      }

  ipc_reply_lem :
      ipc_reply copy key message size k ≡ (some e_ok, leave_serialize_and_dispatch replied)
  unfolding ipc_reply reply_found reply_queued reply_to
  ipc_reply_lem =
      rw
        (
          found,
          reply_found,
          ge_test {a = max} {b = size} fits,
          queue,
          reply_queued,
          thread,
          reply_to,
          copied,
        )
        refl

  -- Where a rendezvous is open, its caller waits first in its list, the answer is not too long and
  -- can be copied, `ipc_send` to the tag that `create_ipc_tag` makes of a 16-bit port and the key
  -- (from 1 to 65535) returns `E_OK` and ends in a dispatch; before that the caller is ready in the
  -- queue of its priority with the size of the answer, the message is copied, and the rendezvous is
  -- over.
  pub ipc_send-Answered :
      (port : ℕ)
      → port < 2 ^ 16
      → 0 < key
      → key < 2 ^ 16
      → t.status ≡ wai
      → (k' : Kernel) × (ipc_send copy (create_ipc_tag port key) message size k
          ≡ (some e_ok, leave_serialize_and_dispatch k'))
        × Answered k' id key size t m
  unfolding ipc_send
  ipc_send-Answered port p z q w = (
    replied,
    rw (key_of_ipc-create_ipc_tag port key p q, ne_test {a = key} {b = 0} (omega arith))
        ipc_reply_lem,
    replied-Answered w,
  )

-- Where no dispatch is asked for, the end of a call changes nothing else.
ends_quietly :
    (k : Kernel)
    → k.no_request ≡ true
    → ((leave_serialize k).thread ≡ k.thread)
      × ((leave_serialize k).wait_queue ≡ k.wait_queue)
      × ((leave_serialize k).ready_task ≡ k.ready_task)
      × ((leave_serialize k).replies ≡ k.replies)
      × ((leave_serialize k).no_request ≡ true)
unfolding leave_serialize
ends_quietly k q = ground (arith, q)

keeps_request : (key : ℕ) (k : Kernel) → (release_rendezvous key k).no_request ≡ k.no_request
unfolding release_rendezvous
keeps_request key k = elim (Option-cases (k.replies key)) [
  | inl n ↦ rw (n, release_rendezvous) refl
  | inr (max, e) ↦ rw (e, release_rendezvous) refl
]

-- No thread, waiting list or ready queue has changed.
abbrev pub Untouched : Kernel → Kernel → Type 0
Untouched k k' =
    (k'.thread ≡ k.thread) × (k'.wait_queue ≡ k.wait_queue) × (k'.ready_task ≡ k.ready_task)

released_quietly :
    (key : ℕ) (k : Kernel)
    → k.no_request ≡ true
    → Untouched k (leave_serialize (release_rendezvous key (record k { serializing = true })))
released_quietly key k q =
    let s = record k { serializing = true } in
    let (a, b, c, d, e) = ends_quietly (release_rendezvous key s) (keeps_request key s ∙ q) in
    (a ∙ keeps_threads key s, b ∙ keeps_queues key s, c ∙ keeps_ready key s)

reply_over :
    (copy : Copy) (key message size : ℕ) (k : Kernel)
    → k.no_request ≡ true
    → k.replies key ≡ none
    → ((ipc_reply copy key message size k).0 ≡ some e_obj)
      × Untouched k (ipc_reply copy key message size k).1
unfolding ipc_reply reply_found
reply_over copy key message size k quiet n = simp n (refl, released_quietly key k quiet)

module _ (copy : Copy) (key message size : ℕ) (k : Kernel) (quiet : k.no_request ≡ true) where
  reply_refused :
      (max : ℕ)
      → k.replies key ≡ some max
      → max < size
      → ipc_reply copy key message size k
        ≡ (some e_par, leave_serialize (release_rendezvous key (record k { serializing = true })))
  unfolding ipc_reply reply_found
  reply_refused max e h = rw (e, reply_found, lt_test {a = max} {b = size} h) refl

  -- Where no dispatch is asked for, an answer that is longer than its rendezvous allows gives
  -- `E_PAR` and ends the rendezvous, and when the call is over every thread, every waiting list,
  -- that of the caller included, and every ready queue is as it was; any further answer to the same
  -- key then gives `E_OBJ` and leaves all of these as they were, too.
  pub ipc_reply_too_long :
      (max : ℕ)
      → k.replies key ≡ some max
      → max < size
      → ((ipc_reply copy key message size k).0 ≡ some e_par)
        × ((ipc_reply copy key message size k).1.replies key ≡ none)
        × Untouched k (ipc_reply copy key message size k).1
        × ((message' size' : ℕ)
            → ((ipc_reply copy key message' size' (ipc_reply copy key message size k).1).0
                ≡ some e_obj)
              × Untouched k
                  (ipc_reply copy key message' size' (ipc_reply copy key message size k).1).1)
  ipc_reply_too_long max e h = rw (reply_refused max e h) (
      let s = record k { serializing = true } in
      let k' = leave_serialize (release_rendezvous key s) in
      let u = released_quietly key k quiet in
      let (a, b, c, d, q) = ends_quietly (release_rendezvous key s) (keeps_request key s ∙ quiet) in
      let gone : k'.replies key ≡ none = ap (λ (f : ℕ → Option ℕ). f key) d ∙ forgets key max s e in
      (
        refl,
        gone,
        u,
        λ message' size'.
            let (r, v) = reply_over copy key message' size' k' q gone in
            (r, (v.0 ∙ u.0, v.1 ∙ u.1, v.2 ∙ u.2)),
      ))
