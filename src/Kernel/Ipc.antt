-- ===== src/Kernel/Ipc.antt =====
-- Opening, closing and listening at a port, kernel/ipc.c; `ipc_notify` is in Kernel/Sync.  The port
-- of a thread has its key.
pub mod Queues
pub mod Released
pub mod Message
pub mod Send
pub mod Transfer
pub mod Sending
pub mod Keys
pub mod Keyed
pub mod Answered
pub mod Laws
mod Tests
use eotan.Prelude.{ℕ, Bool, true, false, Option, none, some, List, [], ◌==◌, not, if◌then◌else◌}
use eotan.Kernel.State.{
  WaitType, wait_flag, Er, e_ok, e_rsatr, e_par, e_obj, Thread, Kernel, WaitQueue, caller, receiver,
  reply, set_thread,
}
use eotan.Kernel.Sync.{release_all, leave_serialize, leave_serialize_and_dispatch, wait}

-- `T_CPOR`; `fifo` is `poratr == TA_TFIFO`.
pub record PortParams : Type 0 where
  pub fifo : Bool
  pub maxcmsz : ℕ
  pub maxrmsz : ℕ

-- `list_initialize` of the two lists of a port
pub empty_port : ℕ → (WaitQueue → List ℕ) → WaitQueue → List ℕ
empty_port id queue (caller j) = if id == j then [] else queue (caller j)
empty_port id queue (receiver j) = if id == j then [] else queue (receiver j)
empty_port id queue (reply j) = queue (reply j)

-- `clear`
pub clear : ℕ → PortParams → Thread → Kernel → Kernel
clear id pk t k =
    record (set_thread id
      (record t { port_opened = true; port_max_call = pk.maxcmsz; port_max_reply = pk.maxrmsz })
      k) { wait_queue = empty_port id k.wait_queue }

pub open_port : PortParams → Option Thread → Kernel → Er × Kernel
open_port pk none k = (e_obj, record k { crashed = true })
open_port pk (some t) k = if t.port_opened then (e_obj, k) else (e_ok, clear k.running pk t k)

pub open_valid : PortParams → Kernel → Er × Kernel
open_valid pk k =
    let (er, k') = open_port pk (k.thread k.running) (record k { serializing = true }) in
    if not pk.fifo then (e_rsatr, k) else (er, leave_serialize k')

-- `none` is the null pointer.
pub ipc_open : Option PortParams → Kernel → Er × Kernel
ipc_open none k = (e_par, k)
ipc_open (some pk) k = open_valid pk k

pub close_port : Option Thread → Kernel → Er × Kernel
close_port none k = (e_obj, record k { crashed = true })
close_port (some t) k =
    if t.port_opened
    then (
      e_ok,
      release_all (caller k.running) (
          release_all (receiver k.running)
            (set_thread k.running (record t { port_opened = false }) k)),
    )
    else (e_obj, k)

pub ipc_close : Kernel → Er × Kernel
ipc_close k =
    let (er, k') = close_port (k.thread k.running) (record k { serializing = true }) in
    (er, leave_serialize_and_dispatch k')

-- The result is `none` where the thread waits; it then returns its `wait.result` when it runs again.
pub listen_port : Option Thread → Kernel → Option Er × Kernel
listen_port none k = (none, record k { crashed = true })
listen_port (some t) k =
    if t.port_flag == 0
    then (none, wait (set_thread k.running (record t { wait_type = wait_flag }) k))
    else (some e_ok, leave_serialize (set_thread k.running (record t { port_flag = 0 }) k))

pub ipc_listen : Kernel → Option Er × Kernel
ipc_listen k = listen_port (k.thread k.running) (record k { serializing = true })
