-- ===== src/Kernel/Ipc/Send.antt =====
-- Receiving, sending and replying, kernel/ipc.c.
use eotan.Prelude.{ℕ, true, Option, none, some, List, [], ◌∷◌, ◌==◌, not, ltb, if◌then◌else◌}
use eotan.Kernel.State.{
  WaitType, wait_call, wait_reply, wait_send, Er, e_ok, e_par, e_obj, e_noexs, e_rlwai, Thread,
  Kernel, caller, receiver, reply, set_thread,
}
use eotan.Kernel.Sync.{release, waiting_remove, leave_serialize, leave_serialize_and_dispatch}
use eotan.Kernel.Ipc.Message.{
  Outcome, failed, received, Copy, key_of_ipc, create_ipc_tag, enqueue, release_rendezvous, block,
  deliver, to_be_received, for_message, is_ok,
}

-- The thread whose call was received waits for its answer.
unfoldable pub accept_call : ℕ → Thread → Option ℕ → Kernel → Kernel
accept_call id t none k = record k { crashed = true }
accept_call id t (some max) k =
    set_thread id (record t { wait_type = wait_reply })
      (enqueue (reply (key_of_ipc t.wait_key)) id k)

-- `switch (tp->wait.type)`
unfoldable pub accept : WaitType → ℕ → Thread → Kernel → Kernel
accept wait_call id t k = accept_call id t (k.replies (key_of_ipc t.wait_key)) k
accept wait_send id t k = release id k
accept _ id t k = k

-- `ipc_receive` goes on after its wait.
unfoldable pub receive_ended : Option Thread → Kernel → Outcome × Kernel
receive_ended none k = (failed e_noexs, record k { crashed = true })
receive_ended (some t) k = (
  if is_ok t.wait_result then received t.wait_size t.wait_key else failed t.wait_result,
  leave_serialize k,
)

unfoldable pub receive_end : Kernel → Outcome × Kernel
receive_end k = receive_ended (k.thread k.running) (record k { serializing = true })

-- `_send` goes on after its wait.
unfoldable pub send_end : Kernel → Option Er
send_end k = elim (k.thread k.running) [ none ↦ none | some t ↦ some t.wait_result ]

module _ (copy : Copy) where
  unfoldable pub receive_from : ℕ → ℕ → Option Thread → Kernel → Option Outcome × Kernel
  receive_from message id none k = (none, record k { crashed = true })
  receive_from message id (some t) k =
      elim (copy id t.wait_message k.running message t.wait_size k.memory) [
        | none ↦ (some (failed e_par), leave_serialize k)
        | some m ↦ (
          some (received t.wait_size t.wait_key),
          leave_serialize (accept t.wait_type id t (waiting_remove id (record k { memory = m }))),
        )
      ]

  unfoldable pub receive_queued : ℕ → ℕ → List ℕ → Kernel → Option Outcome × Kernel
  receive_queued port message [] k = (none, block (receiver port) (for_message message) k)
  receive_queued port message (id ∷ rest) k = receive_from message id (k.thread id) k

  unfoldable pub receive_port : ℕ → ℕ → Option Thread → Kernel → Option Outcome × Kernel
  receive_port port message none k = (some (failed e_noexs), leave_serialize k)
  receive_port port message (some t) k =
      let queued = receive_queued port message (k.wait_queue (caller port)) k in
      if not t.port_opened then (some (failed e_noexs), leave_serialize k) else queued

  unfoldable pub receive_running : ℕ → ℕ → Option Thread → Kernel → Option Outcome × Kernel
  receive_running port message none k = (none, record k { crashed = true })
  receive_running port message (some t) k =
      let from = receive_port port message (k.thread port) k in
      if t.port_flag == 0 then from else (
        some (failed e_rlwai),
        leave_serialize (set_thread k.running (record t { port_flag = 0 }) k),
      )

  -- A receive that waits gives no result, and goes on in `receive_end`.
  unfoldable pub ipc_receive : ℕ → ℕ → Kernel → Option Outcome × Kernel
  ipc_receive port message k =
      receive_running port message (k.thread k.running) (record k { serializing = true })

  -- The answer goes to the caller.
  unfoldable pub reply_to : ℕ → ℕ → ℕ → ℕ → Option Thread → Kernel → Option Er × Kernel
  reply_to key message size id none k = (none, record k { crashed = true })
  reply_to key message size id (some t) k =
      elim (copy k.running message id t.wait_message size k.memory) [
        | none ↦ (some e_par, leave_serialize (release_rendezvous key k))
        | some m ↦ (
          some e_ok,
          leave_serialize_and_dispatch (
              release_rendezvous key
                (deliver id (record t { wait_size = size }) (record k { memory = m }))),
        )
      ]

  unfoldable pub reply_queued : ℕ → ℕ → ℕ → List ℕ → Kernel → Option Er × Kernel
  reply_queued key message size [] k =
      (some e_obj, leave_serialize_and_dispatch (release_rendezvous key k))
  reply_queued key message size (id ∷ rest) k = reply_to key message size id (k.thread id) k

  unfoldable pub reply_found : ℕ → ℕ → ℕ → Option ℕ → Kernel → Option Er × Kernel
  reply_found key message size none k = (some e_obj, leave_serialize (release_rendezvous key k))
  reply_found key message size (some max) k =
      let queued = reply_queued key message size (k.wait_queue (reply key)) k in
      if ltb max size then (some e_par, leave_serialize (release_rendezvous key k)) else queued

  -- `_reply`
  unfoldable pub ipc_reply : ℕ → ℕ → ℕ → Kernel → Option Er × Kernel
  ipc_reply key message size k =
      reply_found key message size (k.replies key) (record k { serializing = true })

  unfoldable pub send_receiver : ℕ → ℕ → ℕ → ℕ → Option Thread → Kernel → Option Er × Kernel
  send_receiver tag message size id none k = (none, record k { crashed = true })
  send_receiver tag message size id (some t) k =
      elim (copy k.running message id t.wait_message size k.memory) [
        | none ↦ (some e_par, leave_serialize k)
        | some m ↦ (
          some e_ok,
          leave_serialize (
              deliver id (record t { wait_size = size; wait_key = tag }) (record k { memory = m })),
        )
      ]

  unfoldable pub send_queued : ℕ → ℕ → ℕ → List ℕ → Kernel → Option Er × Kernel
  send_queued port message size [] k = (
    none,
    block (caller port) (to_be_received wait_send message size (create_ipc_tag k.running 0)) k,
  )
  send_queued port message size (id ∷ rest) k =
      send_receiver (create_ipc_tag k.running 0) message size id (k.thread id) k

  unfoldable pub send_port : ℕ → ℕ → ℕ → Option Thread → Kernel → Option Er × Kernel
  send_port port message size none k = (some e_noexs, leave_serialize k)
  send_port port message size (some t) k =
      let queued = send_queued port message size (k.wait_queue (receiver port)) k in
      if not t.port_opened
      then (some e_noexs, leave_serialize k)
      else if ltb t.port_max_call size
      then (some e_par, leave_serialize k)
      else queued

  -- `_send`
  unfoldable pub send_to : ℕ → ℕ → ℕ → Kernel → Option Er × Kernel
  send_to port message size k =
      send_port port message size (k.thread port) (record k { serializing = true })

  unfoldable pub ipc_send : ℕ → ℕ → ℕ → Kernel → Option Er × Kernel
  ipc_send tag message size k =
      if key_of_ipc tag == 0
      then send_to tag message size k
      else ipc_reply (key_of_ipc tag) message size k
