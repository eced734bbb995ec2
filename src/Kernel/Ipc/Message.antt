-- ===== src/Kernel/Ipc/Message.antt =====
-- Calls, replies, sends and receives: the rest of kernel/ipc.c, with include/nerve/ipc_utils.h.
-- A call that waits gives no result and goes on, when the thread runs again, in `call_end`,
-- `receive_end` or `send_end`.  `reply_t` is the entry of `replies` with the queue `reply`.
use Prim.Native.Nat.{bit_or}
use eotan.Prelude.{
  ℕ, ◌+◌, ◌*◌, ◌/◌, ◌%◌, ◌^◌, Bool, true, false, Option, none, some, List, [], ◌∷◌, ◌++◌, ◌==◌, not,
  ltb, replicate, if◌then◌else◌,
}
use eotan.Set.Sequence.{Sequence, get, initialize}
use eotan.Set.Sequence
use eotan.Kernel.Palloc.{Memory}
use eotan.Kernel.State.{
  WaitType, wait_call, wait_reply, wait_receive, Er, e_ok, e_sys, e_par, e_noid, e_nomem, e_noexs,
  Thread, Kernel, WaitQueue, caller, receiver, reply, set_thread,
}
use eotan.Kernel.Sync.{release, waiting_remove, leave_serialize, wait}

-- `MAX_THREAD`
abbrev pub max_thread : ℕ
max_thread = 1024

first_reply : Option Sequence → Er × Option Sequence
first_reply none = (e_par, none)
first_reply (some s) = elim (get s).0 [
  | none ↦ (e_sys, some (get s).1)
  | some n ↦ (e_ok, some (get s).1)
]

-- The sequence that `ipc_initialize` leaves, where 0 is not given out; `sequence_map` starts as zeros.
unfoldable pub ipc_initialize : Er × Option Sequence
unfolding first_reply
ipc_initialize = first_reply (initialize max_thread (some (replicate 32 0)))

-- What `ipc_call` and `ipc_receive` give: an error, or a size with, for a receive, the tag.
pub data Outcome : Type 0 where
  failed : Er → Outcome
  answered : ℕ → Outcome
  received : ℕ → ℕ → Outcome

-- A tag is an unsigned 32-bit number here.
unfoldable pub port_of_ipc : ℕ → ℕ
port_of_ipc tag = tag % 2 ^ 16

unfoldable pub key_of_ipc : ℕ → ℕ
key_of_ipc tag = tag / 2 ^ 16

-- `(key << 16) | port`, by its halves
unfoldable pub create_ipc_tag : ℕ → ℕ → ℕ
create_ipc_tag port key = bit_or (port / 2 ^ 16) key % 2 ^ 16 * 2 ^ 16 + port % 2 ^ 16

abbrev pub same_queue : WaitQueue → WaitQueue → Bool
same_queue (caller i) (caller j) = i == j
same_queue (receiver i) (receiver j) = i == j
same_queue (reply i) (reply j) = i == j
same_queue _ _ = false

-- `list_enqueue` of the `wait.waiting` link of a thread
unfoldable pub enqueue : WaitQueue → ℕ → Kernel → Kernel
enqueue q id k = record k {
  wait_queue = λ p. if same_queue p q then k.wait_queue p ++ (id ∷ []) else k.wait_queue p;
}

-- `tree_put` of a fresh `reply_t`, and `list_initialize` of its caller
unfoldable pub new_reply : ℕ → ℕ → Kernel → Kernel
new_reply key max k = record k {
  replies = λ j. if j == key then some max else k.replies j;
  wait_queue = λ p. if same_queue p (reply key) then [] else k.wait_queue p;
}

unfoldable pub release_rendezvous : ℕ → Kernel → Kernel
release_rendezvous key k = elim (k.replies key) [
  | none ↦ k
  | some max ↦ record k {
    replies = λ j. if j == key then none else k.replies j;
    reply_sequence = Sequence.release k.reply_sequence key;
  }
]

-- The running thread goes into a waiting list with the reason why.
unfoldable pub block : WaitQueue → (Thread → Thread) → Kernel → Kernel
block q reason k = elim (k.thread k.running) [
  | none ↦ record k { crashed = true }
  | some t ↦ wait (set_thread k.running (reason t) (enqueue q k.running k))
]

-- A message for a waiting thread has been copied: it leaves the list and runs on.
unfoldable pub deliver : ℕ → Thread → Kernel → Kernel
deliver id t k = release id (set_thread id t (waiting_remove id k))

-- the reason of a thread that waits for its answer, or to be received
abbrev pub for_answer : ℕ → Thread → Thread
for_answer message t = record t { wait_type = wait_reply; wait_message = message }

abbrev pub to_be_received : WaitType → ℕ → ℕ → ℕ → Thread → Thread
to_be_received kind message size tag t = record t {
  wait_type = kind;
  wait_message = message;
  wait_size = size;
  wait_key = tag;
}

abbrev pub for_message : ℕ → Thread → Thread
for_message message t = record t { wait_type = wait_receive; wait_message = message }

abbrev pub is_ok : Er → Bool
is_ok e_ok = true
is_ok _ = false

-- `ipc_call` goes on.
unfoldable pub call_ended : ℕ → Option Thread → Kernel → Outcome × Kernel
call_ended key none k = (failed e_sys, record k { crashed = true })
call_ended key (some t) k =
    let k' = leave_serialize (release_rendezvous key (record k { serializing = true })) in
    if is_ok t.wait_result then (answered t.wait_size, k) else (failed t.wait_result, k')

unfoldable pub call_end : ℕ → Kernel → Outcome × Kernel
call_end key k = call_ended key (k.thread k.running) k

-- `memcpy_k2u` and `memcpy_u2k`: copying from a place in the memory of a thread to a place in that
-- of another, so many bytes; `none` where it fails.
abbrev pub Copy : Type 0
Copy = ℕ → ℕ → ℕ → ℕ → ℕ → Memory → Option Memory

module _ (copy : Copy) where
  -- The message goes to the first receiver, and the caller waits for the answer.
  unfoldable pub call_receiver :
      ℕ → ℕ → ℕ → ℕ → ℕ → Option Thread → Kernel → Option Outcome × Kernel
  call_receiver key tag message size id none k = (none, record k { crashed = true })
  call_receiver key tag message size id (some t) k =
      elim (copy k.running message id t.wait_message size k.memory) [
        | none ↦ (some (failed e_par), leave_serialize (release_rendezvous key k))
        | some m ↦ (
          none,
          block (reply key) (for_answer message) (
              deliver id (record t { wait_size = size; wait_key = tag }) (record k { memory = m })),
        )
      ]

  unfoldable pub call_queued : ℕ → ℕ → ℕ → ℕ → List ℕ → Kernel → Option Outcome × Kernel
  call_queued port key message size [] k = (
    none,
    block (caller port) (to_be_received wait_call message size (create_ipc_tag k.running key)) k,
  )
  call_queued port key message size (id ∷ rest) k =
      call_receiver key (create_ipc_tag k.running key) message size id (k.thread id) k

  -- `entry` is whether `slab_alloc` has an entry.
  unfoldable pub call_keyed :
      Bool → ℕ → Thread → ℕ → ℕ → Option ℕ → Kernel → Option Outcome × Kernel
  call_keyed entry port t message size none k = (some (failed e_noid), leave_serialize k)
  call_keyed entry port t message size (some key) k =
      let k' = record k { reply_sequence = Sequence.release k.reply_sequence key } in
      let k'' = new_reply key t.port_max_reply k in
      if not entry then (some (failed e_nomem), leave_serialize k') else elim (k.replies key) [
        | none ↦ call_queued port key message size (k''.wait_queue (receiver port)) k''
        | some max ↦ (some (failed e_sys), leave_serialize k')
      ]

  unfoldable pub call_port : Bool → ℕ → ℕ → ℕ → Option Thread → Kernel → Option Outcome × Kernel
  call_port entry port message size none k = (some (failed e_noexs), leave_serialize k)
  call_port entry port message size (some t) k =
      let (key, q) = get k.reply_sequence in
      let keyed = call_keyed entry port t message size key (record k { reply_sequence = q }) in
      if not t.port_opened
      then (some (failed e_noexs), leave_serialize k)
      else if ltb t.port_max_call size
      then (some (failed e_par), leave_serialize k)
      else keyed

  unfoldable pub ipc_call : Bool → ℕ → ℕ → ℕ → Kernel → Option Outcome × Kernel
  ipc_call entry port message size k =
      call_port entry port message size (k.thread port) (record k { serializing = true })
