-- ===== src/Ipc/Locks.antt =====
-- Semaphores, mutexes and timeouts of src/kernel/halaos_objects.c: kobj_sem_*, kobj_mutex_* and
-- kobj_ipc_tick. A result is the i32 as a u32.
use halaos_stm32f103_hardwar.Prelude.{
  minus, ℕ, zero, suc, ◌+◌, ◌-◌, ◌*◌, Bool, false, not, ◌&&◌, ◌||◌, none, some, ◌==◌, ltb,
  if◌then◌else◌, inc32, sub32,
}
use halaos_stm32f103_hardwar.Ipc.{
  WaitKind, IpcObject, Kobj, max_ipc, not_positive, no_wait, is_semaphore, is_lock, is_sem,
  is_mutex, set_object, ipc_wake_waiter, ipc_from_handle,
}
use halaos_stm32f103_hardwar.Ipc.Operations.{not_now, wait_on}

unfoldable pub kobj_sem_wait : ℕ → ℕ → Kobj → ℕ × Kobj
kobj_sem_wait handle timeout k = elim (ipc_from_handle handle k) [
  | none ↦ (minus 9, k)
  | some i ↦
      let o = k.objects i in
      if not (is_sem o.type)
      then (minus 9, k)
      else if not_positive o.value
      then not_now timeout (minus 11) k
      else (0, set_object i (record o { value = o.value - 1 }) k)
]

-- wait_byte keeps what it was, as in the source.
unfoldable pub kobj_sem_wait_blocking : ℕ → ℕ → ℕ → ℕ → Kobj → ℕ × Kobj
kobj_sem_wait_blocking pid handle timeout frame k =
    let (immediate, k') = kobj_sem_wait handle 0 k in
    if not (immediate == minus 11) || (timeout == 0)
    then (immediate, k')
    else elim (ipc_from_handle handle k') [
      | none ↦ (minus 16, k')
      | some i ↦ wait_on i WaitKind.semaphore pid timeout frame (k'.objects i).wait_byte k'
    ]

unfoldable pub kobj_sem_post : ℕ → Kobj → ℕ × Kobj
kobj_sem_post handle k = elim (ipc_from_handle handle k) [
  | none ↦ (minus 9, k)
  | some i ↦
      let o = k.objects i in
      if not (is_sem o.type)
      then (minus 9, k)
      else if is_semaphore o.wait_kind
      then (0, ipc_wake_waiter i 0 0 false k)
      else (0, set_object i (record o { value = inc32 o.value }) k)
]

unfoldable pub kobj_mutex_lock : ℕ → ℕ → ℕ → Kobj → ℕ × Kobj
kobj_mutex_lock pid handle timeout k = elim (ipc_from_handle handle k) [
  | none ↦ (minus 9, k)
  | some i ↦
      let o = k.objects i in
      if not (is_mutex o.type)
      then (minus 9, k)
      else if not (o.lock_owner == 0) && not (o.lock_owner == pid)
      then not_now timeout (minus 16) k
      else (0, set_object i (record o { lock_owner = pid }) k)
]

unfoldable pub kobj_mutex_lock_blocking : ℕ → ℕ → ℕ → ℕ → Kobj → ℕ × Kobj
kobj_mutex_lock_blocking pid handle timeout frame k =
    let (immediate, k') = kobj_mutex_lock pid handle 0 k in
    if not (immediate == minus 16) || (timeout == 0)
    then (immediate, k')
    else elim (ipc_from_handle handle k') [
      | none ↦ (minus 16, k')
      | some i ↦ wait_on i WaitKind.lock pid timeout frame (k'.objects i).wait_byte k'
    ]

-- kobj_mutex_unlock on the mutex `i`, which the caller owns.
unfoldable pub hand_over : ℕ → Kobj → Kobj
hand_over i k =
    let o = k.objects i in
    if is_lock o.wait_kind
    then ipc_wake_waiter i 0 0 false (set_object i (record o { lock_owner = o.wait_pid }) k)
    else set_object i (record o { lock_owner = 0 }) k

unfoldable pub kobj_mutex_unlock : ℕ → ℕ → Kobj → ℕ × Kobj
kobj_mutex_unlock pid handle k = elim (ipc_from_handle handle k) [
  | none ↦ (minus 9, k)
  | some i ↦
      let o = k.objects i in
      if not (is_mutex o.type)
      then (minus 9, k)
      else if not (o.lock_owner == pid)
      then (minus 13, k)
      else (0, hand_over i k)
]

-- `(i32)(now - object->wait_deadline) >= 0`
abbrev pub expired : ℕ → IpcObject → Bool
expired now o = ltb (sub32 now o.wait_deadline) (2 * 1024 * 1024 * 1024)

-- The loop of kobj_ipc_tick at one object.
unfoldable pub tick_object : ℕ → ℕ → Kobj → Kobj
tick_object now i k =
    let o = k.objects i in
    let k' = record k { ipc_timeouts = inc32 k.ipc_timeouts } in
    if (o.used && not (no_wait o.wait_kind)) && expired now o
    then ipc_wake_waiter i (minus 110) 0 false k'
    else k

unfoldable pub tick_loop : ℕ → ℕ → ℕ → Kobj → Kobj
tick_loop zero i now k = k
tick_loop (suc left) i now k = tick_loop left (i + 1) now (tick_object now i k)

unfoldable pub kobj_ipc_tick : ℕ → Kobj → Kobj
kobj_ipc_tick now k = tick_loop max_ipc 0 now k
