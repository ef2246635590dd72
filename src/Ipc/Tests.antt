-- ===== src/Ipc/Tests.antt =====
-- The IPC objects on a concrete state.
use halaos_stm32f103_hardwar.Prelude.{
  minus, ℕ, ◌+◌, ◌≡◌, ◌≢◌, refl, true, none, some, [], ◌∷◌, ◌++◌, arith, ◌==◌, ltb, if◌then◌else◌,
  length, drop, get_or,
}
use halaos_stm32f103_hardwar.Kernel.{TaskState}
use halaos_stm32f103_hardwar.Samples.{sample}
use halaos_stm32f103_hardwar.Ipc.{
  IpcType, WaitKind, IpcObject, Kobj, ipc_data, zero_object, ipc_from_handle, is_queue, is_receive,
  is_mutex, is_lock, no_wait, clear_waiter,
}
use halaos_stm32f103_hardwar.Ipc.Operations.{
  kobj_ipc_close, take_object, kobj_ipc_send, kobj_ipc_receive,
}
use halaos_stm32f103_hardwar.Ipc.Locks.{kobj_mutex_lock, kobj_mutex_unlock, kobj_ipc_tick}
use halaos_stm32f103_hardwar.Ipc.Exclusion.{Step, Steps, owner, Steps-exclusion}
use halaos_stm32f103_hardwar.Ipc.Handle.{kobj_ipc_close-refused}
use halaos_stm32f103_hardwar.Ipc.Timeout.{is_due, kobj_ipc_tick-clear_waiter}
use halaos_stm32f103_hardwar.Ipc.Queue.{
  Holds, kobj_ipc_send-queue, kobj_ipc_send-waiter, kobj_ipc_receive-queue,
}
use halaos_stm32f103_hardwar.Ipc.Mutex.{kobj_mutex_unlock-hand_over}

-- Object 0 is a queue with one byte, 1 a queue that task 11 waits on, and 2 a mutex of process 3
-- that task 12 waits for.
abbrev table : ℕ → IpcObject
table i =
    let o = record zero_object { used = true; generation = 1; owner = 3; wait_task = 255 } in
    if i == 0
    then record o { bytes = λ j. 65; head = 127; count = 1 }
    else if i == 1
    then record o {
      wait_task = 11;
      wait_kind = WaitKind.receive;
      wait_pid = 4;
      wait_deadline = 90;
      wait_frame = some 7;
      wait_byte = some 50;
    }
    else if i == 2
    then record o {
      type = IpcType.mutex;
      lock_owner = 3;
      wait_task = 12;
      wait_kind = WaitKind.lock;
      wait_pid = 5;
      wait_deadline = 200;
      wait_frame = some 9;
    }
    else zero_object

abbrev start : Kobj
start = record {
  sched = sample;
  processes = λ i. record { pid = i + 1; free = ltb 5 i; ipc_count = 1 };
  objects = table;
  frames = λ a. 0;
  memory = λ a. 0;
  ipc_operations = 0;
  ipc_objects_live = 3;
  ipc_timeouts = 0;
  ipc_wakeups = 0;
  wait_ops = 2;
}

one_byte-Holds : Holds (table 0) (65 ∷ [])
one_byte-Holds = record {
  count = refl;
  room = omega arith;
  head_low = omega arith;
  tail_at = refl;
  cells = (refl, tt);
}

handle_0 : ipc_from_handle 256 start ≡ some 0
unfolding ipc_from_handle
handle_0 = refl

handle_1 : ipc_from_handle 257 start ≡ some 1
unfolding ipc_from_handle
handle_1 = refl

handle_2 : ipc_from_handle 258 start ≡ some 2
unfolding ipc_from_handle
handle_2 = refl

kobj_ipc_close-refused_example :
    let (result, r) = kobj_ipc_close 3 256 start in
    (result ≡ 0)
    × (ipc_from_handle 256 r ≡ none)
    × (ipc_from_handle 256 (take_object 0 4 IpcType.sem 1 3 r) ≡ none)
kobj_ipc_close-refused_example =
    kobj_ipc_close-refused 3 256 0 4 IpcType.sem 1 3 start handle_0 refl (omega arith)

kobj_ipc_tick-clear_waiter_example :
    (kobj_ipc_tick 100 start).objects 1
    ≡ (if is_due 100 (start.objects 1) then clear_waiter (start.objects 1) else start.objects 1)
kobj_ipc_tick-clear_waiter_example = kobj_ipc_tick-clear_waiter 100 1 start (omega arith)

kobj_ipc_send-queue_example :
    let (result, r) = kobj_ipc_send 256 66 start in
    let room = ltb (length {A = ℕ} (65 ∷ [])) ipc_data in
    (result ≡ (if room then 1 else minus 11))
    × Holds (r.objects 0) (if room then (65 ∷ []) ++ 66 ∷ [] else 65 ∷ [])
unfolding is_queue is_receive
kobj_ipc_send-queue_example =
    kobj_ipc_send-queue 256 66 0 start (65 ∷ []) handle_0 refl refl one_byte-Holds

kobj_ipc_send-waiter_example :
    let (result, r) = kobj_ipc_send 257 66 start in
    (result ≡ 1)
    × (r.memory 50 ≡ 66)
    × (r.frames 7 ≡ 1)
    × ((r.sched.tasks 11).state ≡ TaskState.ready)
    × ((r.objects 1).count ≡ (start.objects 1).count)
unfolding is_queue is_receive
kobj_ipc_send-waiter_example =
    kobj_ipc_send-waiter 257 66 1 7 50 start handle_1 refl refl (omega arith) refl refl

kobj_ipc_receive-queue_example :
    let (result, r) = kobj_ipc_receive 256 (some 40) 5 start in
    (result
      ≡ (if length {A = ℕ} (65 ∷ []) == 0 then (if 5 == 0 then minus 11 else minus 110) else 1))
    × (r.memory 40 ≡ get_or (65 ∷ []) 0 (start.memory 40))
    × Holds (r.objects 0) (drop 1 (65 ∷ []))
unfolding is_queue
kobj_ipc_receive-queue_example =
    kobj_ipc_receive-queue 256 40 5 0 start (65 ∷ []) handle_0 refl one_byte-Holds

-- The mutex of process 3 while process 4 tries to take it and to give it away, and the wait of
-- process 5 runs out.
abbrev contended : Kobj
contended = (kobj_mutex_unlock 4 258 (kobj_ipc_tick 300 (kobj_mutex_lock 4 258 7 start).1)).1

contention : Steps 3 start contended
contention =
    Steps.more
      (Steps.more (Steps.more Steps.start (Step.lock 4 258 7 (λ e. absurd (omega (arith, e)))))
        (Step.tick 300))
      (Step.unlock 4 258 λ e. absurd (omega (arith, e)))

Steps-exclusion_example :
    (owner 2 contended ≡ 3)
    × ((q handle timeout : ℕ)
        → q ≢ 3
        → ipc_from_handle handle contended ≡ some 2
        → ((kobj_mutex_lock q handle timeout contended).0 ≢ 0)
          × ((kobj_mutex_unlock q handle contended).0 ≢ 0))
Steps-exclusion_example =
    Steps-exclusion 3 2 start contended (λ e. absurd (omega (arith, e))) (omega arith) refl
      contention

kobj_mutex_unlock-hand_over_example :
    let (result, r) = kobj_mutex_unlock 3 258 start in
    let o = start.objects 2 in
    (result ≡ 0)
    × ((r.objects 2).lock_owner ≡ o.wait_pid)
    × (no_wait (r.objects 2).wait_kind ≡ true)
    × (r.frames 9 ≡ 0)
    × ((r.sched.tasks o.wait_task).state ≡ TaskState.ready)
unfolding is_mutex is_lock
kobj_mutex_unlock-hand_over_example =
    kobj_mutex_unlock-hand_over 3 258 2 9 start handle_2 refl refl refl (omega arith) refl
