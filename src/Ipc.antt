-- ===== src/Ipc.antt =====
-- The IPC objects of src/kernel/halaos_objects.c: handles, waiters, queues, events, semaphores and
-- mutexes.
pub mod Exclusion
pub mod Handle
pub mod Locks
pub mod Mutex
pub mod Operations
pub mod Timeout
pub mod Queue
mod Tests
use halaos_stm32f103_hardwar.Prelude.{
  minus, ℕ, zero, suc, ◌+◌, ◌-◌, ◌*◌, ◌/◌, ◌%◌, Bool, true, false, not, ◌&&◌, ◌||◌, Option, none,
  some, ◌==◌, ltb, leb, if◌then◌else◌, update, inc32, add32, sub32, u8_mod, u16_mod, u32_mod,
}
use halaos_stm32f103_hardwar.Chain.{invalid_idx, max_tasks}
use halaos_stm32f103_hardwar.Kernel.{TaskState, Sched}
use halaos_stm32f103_hardwar.Sleep.{task_make_ready}
use halaos_stm32f103_hardwar.Dispatch.{block_current}

abbrev pub max_processes : ℕ
max_processes = 8

abbrev pub max_ipc : ℕ
max_ipc = 4

abbrev pub ipc_data : ℕ
ipc_data = 128

-- HOS_IPC_*
pub data IpcType : Type 0 where
  queue pipe sem mutex event : IpcType

-- HOS_WAIT_*
pub data WaitKind : Type 0 where
  nobody receive semaphore lock : WaitKind

-- HOS_WAIT_PENDING
abbrev pub wait_pending : ℕ
wait_pending = 0x7FFFFFFE

-- `x <= 0` on an i32.
abbrev pub not_positive : ℕ → Bool
not_positive x = (x == 0) || leb (2 * 1024 * 1024 * 1024) x

-- The fields of HalaProcess that the IPC objects use.
pub record Process : Type 0 where
  pub pid : ℕ
  pub free : Bool
  pub ipc_count : ℕ

-- `wait_frame` and `wait_byte` are addresses, `none` for NULL; `value` is an i32.
pub record IpcObject : Type 0 where
  pub used : Bool
  pub type : IpcType
  pub generation : ℕ
  pub owner : ℕ
  pub head : ℕ
  pub tail : ℕ
  pub count : ℕ
  pub wait_task : ℕ
  pub wait_kind : WaitKind
  pub wait_pid : ℕ
  pub bytes : ℕ → ℕ
  pub value : ℕ
  pub lock_owner : ℕ
  pub wait_deadline : ℕ
  pub wait_frame : Option ℕ
  pub wait_byte : Option ℕ

-- `frames` holds the first word of each exception frame, and `memory` the bytes of user buffers.
pub record Kobj : Type 0 where
  pub sched : Sched
  pub processes : ℕ → Process
  pub objects : ℕ → IpcObject
  pub frames : ℕ → ℕ
  pub memory : ℕ → ℕ
  pub ipc_operations : ℕ
  pub ipc_objects_live : ℕ
  pub ipc_timeouts : ℕ
  pub ipc_wakeups : ℕ
  pub wait_ops : ℕ

unfoldable pub no_wait : WaitKind → Bool
no_wait WaitKind.nobody = true
no_wait _ = false

unfoldable pub is_receive : WaitKind → Bool
is_receive WaitKind.receive = true
is_receive _ = false

unfoldable pub is_semaphore : WaitKind → Bool
is_semaphore WaitKind.semaphore = true
is_semaphore _ = false

unfoldable pub is_lock : WaitKind → Bool
is_lock WaitKind.lock = true
is_lock _ = false

unfoldable pub is_event : IpcType → Bool
is_event IpcType.event = true
is_event _ = false

unfoldable pub is_queue : IpcType → Bool
is_queue IpcType.queue = true
is_queue IpcType.pipe = true
is_queue _ = false

unfoldable pub is_sem : IpcType → Bool
is_sem IpcType.sem = true
is_sem _ = false

unfoldable pub is_mutex : IpcType → Bool
is_mutex IpcType.mutex = true
is_mutex _ = false

abbrev pub set_object : ℕ → IpcObject → Kobj → Kobj
set_object i o k = record k { objects = update k.objects i o }

-- mem_zero of an object.
abbrev pub zero_object : IpcObject
zero_object = record {
  used = false;
  type = IpcType.queue;
  generation = 0;
  owner = 0;
  head = 0;
  tail = 0;
  count = 0;
  wait_task = 0;
  wait_kind = WaitKind.nobody;
  wait_pid = 0;
  bytes = λ i. 0;
  value = 0;
  lock_owner = 0;
  wait_deadline = 0;
  wait_frame = none;
  wait_byte = none;
}

abbrev pub clear_waiter : IpcObject → IpcObject
clear_waiter o = record o {
  wait_task = invalid_idx;
  wait_kind = WaitKind.nobody;
  wait_pid = 0;
  wait_deadline = 0;
  wait_frame = none;
  wait_byte = none;
}

-- `if (p != NULL) *p = v;`
unfoldable pub store : Option ℕ → ℕ → (ℕ → ℕ) → ℕ → ℕ
store none v m = m
store (some a) v m = update m a v

pub wake_task : ℕ → Kobj → Kobj
wake_task task k =
    if ltb task max_tasks
    then record k { sched = task_make_ready task k.sched; ipc_wakeups = inc32 k.ipc_wakeups }
    else k

-- ipc_wake_waiter(&g_ipc_objects[i], result, value, write_value)
unfoldable pub ipc_wake_waiter : ℕ → ℕ → ℕ → Bool → Kobj → Kobj
ipc_wake_waiter i result value write_value k =
    let o = k.objects i in
    wake_task o.wait_task (
      set_object i (clear_waiter o) (record k {
        memory = if write_value then store o.wait_byte value k.memory else k.memory;
        frames = store o.wait_frame result k.frames;
      }))

unfoldable pub ipc_handle : ℕ → Kobj → ℕ
ipc_handle i k = (k.objects i).generation * u8_mod + i

unfoldable pub ipc_from_handle : ℕ → Kobj → Option ℕ
ipc_from_handle handle k =
    let i = handle % u8_mod in
    let o = k.objects i in
    if leb max_ipc i || (not o.used || not (o.generation == handle / u8_mod)) then none else some i

-- process_by_pid, from process `i` on with `left` to go.
unfoldable pub find_process : ℕ → ℕ → ℕ → Kobj → Option ℕ
find_process zero i pid k = none
find_process (suc left) i pid k =
    let p = k.processes i in
    let rest = find_process left (i + 1) pid k in
    if not p.free && (p.pid == pid) then some i else rest

unfoldable pub process_by_pid : ℕ → Kobj → Option ℕ
process_by_pid pid k = find_process max_processes 0 pid k
