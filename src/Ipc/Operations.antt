-- ===== src/Ipc/Operations.antt =====
-- The operations of src/kernel/halaos_objects.c on IPC objects and queues, kobj_ipc_*. A result is
-- the i32 as a u32.
use halaos_stm32f103_hardwar.Prelude.{
  minus, ℕ, zero, suc, ◌+◌, ◌-◌, ◌%◌, true, false, not, ◌||◌, Option, none, some, ◌==◌, leb,
  if◌then◌else◌, update, inc32, add32, u16_mod, u8_mod,
}
use halaos_stm32f103_hardwar.Chain.{invalid_idx}
use halaos_stm32f103_hardwar.Kernel.{TaskState}
use halaos_stm32f103_hardwar.Dispatch.{block_current}
use halaos_stm32f103_hardwar.Ipc.{
  IpcType, WaitKind, IpcObject, Kobj, max_ipc, ipc_data, wait_pending, not_positive, no_wait,
  is_receive, is_event, is_queue, set_object, zero_object, ipc_wake_waiter, ipc_handle,
  ipc_from_handle, process_by_pid,
}

abbrev pub set_ipc_count : ℕ → ℕ → Kobj → Kobj
set_ipc_count p n k = record k {
  processes = update k.processes p (record (k.processes p) { ipc_count = n });
}

abbrev pub next_generation : ℕ → ℕ
next_generation g = if (g + 1) % u16_mod == 0 then 1 else (g + 1) % u16_mod

-- The loop of kobj_ipc_create at a free object.
unfoldable pub take_object : ℕ → ℕ → IpcType → ℕ → ℕ → Kobj → Kobj
take_object i pid type initial p k =
    let o = record zero_object {
      used = true;
      type = type;
      generation = next_generation (k.objects i).generation;
      owner = pid;
      value = initial;
      wait_task = invalid_idx;
    } in
    let k' = set_ipc_count p (((k.processes p).ipc_count + 1) % u8_mod) (set_object i o k) in
    record k' { ipc_objects_live = inc32 k'.ipc_objects_live }

unfoldable pub create_loop : ℕ → ℕ → ℕ → IpcType → ℕ → ℕ → Kobj → ℕ × Kobj
create_loop zero i pid type initial p k = (minus 12, k)
create_loop (suc left) i pid type initial p k =
    let rest = create_loop left (i + 1) pid type initial p k in
    let k' = take_object i pid type initial p k in
    if (k.objects i).used then rest else (ipc_handle i k', k')

-- The type is one of the five that the range check on it admits.
unfoldable pub kobj_ipc_create : ℕ → IpcType → ℕ → Kobj → ℕ × Kobj
kobj_ipc_create pid type initial k = elim (process_by_pid pid k) [
  | none ↦ (minus 22, k)
  | some p ↦ create_loop max_ipc 0 pid type initial p k
]

unfoldable pub lower_ipc_count : Option ℕ → Kobj → Kobj
lower_ipc_count none k = k
lower_ipc_count (some p) k =
    if (k.processes p).ipc_count == 0 then k else set_ipc_count p ((k.processes p).ipc_count - 1) k

-- kobj_ipc_close behind its two checks.
unfoldable pub free_object : ℕ → ℕ → Kobj → Kobj
free_object i pid k =
    let k₁ =
      if no_wait (k.objects i).wait_kind then k else ipc_wake_waiter i (minus 125) 0 false k in
    let k₂ = lower_ipc_count (process_by_pid pid k₁) k₁ in
    let o = record zero_object {
      generation = (k₂.objects i).generation;
      wait_task = invalid_idx;
    } in
    let live = k₂.ipc_objects_live in
    record (set_object i o k₂) { ipc_objects_live = if live == 0 then 0 else live - 1 }

unfoldable pub kobj_ipc_close : ℕ → ℕ → Kobj → ℕ × Kobj
kobj_ipc_close pid handle k = elim (ipc_from_handle handle k) [
  | none ↦ (minus 9, k)
  | some i ↦ if not ((k.objects i).owner == pid) then (minus 13, k) else (0, free_object i pid k)
]

abbrev pub count_operation : Kobj → Kobj
count_operation k = record k { ipc_operations = inc32 k.ipc_operations }

abbrev pub push_byte : ℕ → IpcObject → IpcObject
push_byte value o = record o {
  bytes = update o.bytes o.tail value;
  tail = (o.tail + 1) % ipc_data;
  count = (o.count + 1) % u8_mod;
}

-- kobj_ipc_send on the object `i`.
unfoldable pub send_to : ℕ → ℕ → Kobj → ℕ × Kobj
send_to i value k =
    let o = k.objects i in
    if is_event o.type
    then (
      1,
      count_operation (
          if is_receive o.wait_kind
          then ipc_wake_waiter i 1 1 true k
          else set_object i (record o { value = 1 }) k),
    )
    else if not (is_queue o.type)
    then (minus 9, k)
    else if is_receive o.wait_kind
    then (1, count_operation (ipc_wake_waiter i 1 value true k))
    else if leb ipc_data o.count
    then (minus 11, k)
    else (1, count_operation (set_object i (push_byte value o) k))

unfoldable pub kobj_ipc_send : ℕ → ℕ → Kobj → ℕ × Kobj
kobj_ipc_send handle value k = elim (ipc_from_handle handle k) [
  | none ↦ (minus 9, k)
  | some i ↦ send_to i value k
]

-- What a failed attempt returns and counts: `refusal` without a timeout, -110 with one.
abbrev pub not_now : ℕ → ℕ → Kobj → ℕ × Kobj
not_now timeout refusal k =
    if timeout == 0
    then (refusal, k)
    else (minus 110, record k { ipc_timeouts = inc32 k.ipc_timeouts })

abbrev pub pop_byte : IpcObject → IpcObject
pop_byte o = record o { head = (o.head + 1) % ipc_data; count = (o.count + u8_mod - 1) % u8_mod }

-- kobj_ipc_receive on the object `i`, to the address `output`.
unfoldable pub receive_from : ℕ → ℕ → ℕ → Kobj → ℕ × Kobj
receive_from i output timeout k =
    let o = k.objects i in
    if is_event o.type
    then if not_positive o.value then not_now timeout (minus 11) k else (
      1,
      count_operation
          (record (set_object i (record o { value = 0 }) k) { memory = update k.memory output 1 }),
    )
    else if not (is_queue o.type)
    then (minus 9, k)
    else if o.count == 0
    then not_now timeout (minus 11) k
    else (
      1,
      count_operation (record (set_object i (pop_byte o) k) {
        memory = update k.memory output (o.bytes o.head);
      }),
    )

-- `output` is `none` for NULL.
unfoldable pub kobj_ipc_receive : ℕ → Option ℕ → ℕ → Kobj → ℕ × Kobj
kobj_ipc_receive handle output timeout k = elim (ipc_from_handle handle k) [
  | none ↦ (minus 9, k)
  | some i ↦ elim output [ none ↦ (minus 9, k) | some address ↦ receive_from i address timeout k ]
]

-- The caller becomes the object's waiter and blocks.
unfoldable pub wait_on : ℕ → WaitKind → ℕ → ℕ → ℕ → Option ℕ → Kobj → ℕ × Kobj
wait_on i kind pid timeout frame output k =
    let o = record (k.objects i) {
      wait_task = k.sched.current;
      wait_kind = kind;
      wait_pid = pid;
      wait_deadline = add32 k.sched.ticks timeout;
      wait_frame = some frame;
      wait_byte = output;
    } in
    let k' = set_object i o k in
    if no_wait (k.objects i).wait_kind
    then (
      wait_pending,
      record k' {
        wait_ops = inc32 k'.wait_ops;
        sched = block_current TaskState.blocked 0 k'.sched;
      },
    )
    else (minus 16, k)

unfoldable pub kobj_ipc_receive_wait : ℕ → ℕ → Option ℕ → ℕ → ℕ → Kobj → ℕ × Kobj
kobj_ipc_receive_wait pid handle output timeout frame k =
    let (immediate, k') = kobj_ipc_receive handle output 0 k in
    if not (immediate == minus 11) || (timeout == 0)
    then (immediate, k')
    else elim (ipc_from_handle handle k') [
      | none ↦ (minus 16, k')
      | some i ↦ wait_on i WaitKind.receive pid timeout frame output k'
    ]
