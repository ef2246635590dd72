-- ===== src/Ipc/Mutex.antt =====
-- Mutexes of src/kernel/halaos_objects.c: the hand-over to the task that waits.
use halaos_stm32f103_hardwar.Prelude.{
  ℕ, ◌<◌, ◌≡◌, refl, ap, subst, ◌∙◌, true, false, some, arith, ◌==◌, eqb_refl,
}
use halaos_stm32f103_hardwar.Chain.{max_tasks}
use halaos_stm32f103_hardwar.Kernel.{TaskState}
use halaos_stm32f103_hardwar.Ipc.{
  IpcObject, Kobj, is_mutex, is_lock, no_wait, set_object, ipc_from_handle, ipc_wake_waiter,
  clear_waiter,
}
use halaos_stm32f103_hardwar.Ipc.Handle.{ipc_wake_waiter-objects}
use halaos_stm32f103_hardwar.Ipc.Timeout.{ipc_wake_waiter-returns}
use halaos_stm32f103_hardwar.Ipc.Locks.{kobj_mutex_unlock, hand_over}

unlock-owned :
    (pid handle i : ℕ) (k : Kobj)
    → ipc_from_handle handle k ≡ some i
    → is_mutex (k.objects i).type ≡ true
    → ((k.objects i).lock_owner == pid) ≡ true
    → is_lock (k.objects i).wait_kind ≡ true
    → let k' = set_object i (record (k.objects i) { lock_owner = (k.objects i).wait_pid }) k in
      kobj_mutex_unlock pid handle k ≡ (0, ipc_wake_waiter i 0 0 false k')
unfolding kobj_mutex_unlock hand_over
unlock-owned pid handle i k e typed own waits =
    rw (e, kobj_mutex_unlock) (rw (typed, own, waits, kobj_mutex_unlock, hand_over) refl)

-- On a handle of a mutex that the caller owns and a valid task waits for, with a frame,
-- kobj_mutex_unlock returns 0 and hands the mutex over: the process of the waiter owns it, nobody
-- waits on it any more, the waiter's call returns 0 and its task is READY.
pub kobj_mutex_unlock-hand_over :
    (pid handle i frame : ℕ) (k : Kobj)
    → ipc_from_handle handle k ≡ some i
    → is_mutex (k.objects i).type ≡ true
    → (k.objects i).lock_owner ≡ pid
    → is_lock (k.objects i).wait_kind ≡ true
    → (k.objects i).wait_task < max_tasks
    → (k.objects i).wait_frame ≡ some frame
    → let (result, r) = kobj_mutex_unlock pid handle k in
      let o = k.objects i in
      (result ≡ 0)
      × ((r.objects i).lock_owner ≡ o.wait_pid)
      × (no_wait (r.objects i).wait_kind ≡ true)
      × (r.frames frame ≡ 0)
      × ((r.sched.tasks o.wait_task).state ≡ TaskState.ready)
unfolding no_wait
kobj_mutex_unlock-hand_over pid handle i frame k e typed own waits valid f =
    let o : IpcObject = record (k.objects i) { lock_owner = (k.objects i).wait_pid } in
    let k' : Kobj = set_object i o k in
    let here : k'.objects i ≡ o = ground (arith, eqb_refl i) in
    let after : (ipc_wake_waiter i 0 0 false k').objects i ≡ clear_waiter o =
      ap (λ (g : ℕ → IpcObject). g i) (ipc_wake_waiter-objects i 0 0 false k')
      ∙ ground (arith, eqb_refl i) in
    let task : (k'.objects i).wait_task ≡ (k.objects i).wait_task =
      ap (λ (x : IpcObject). x.wait_task) here in
    let w =
      ipc_wake_waiter-returns i 0 0 frame false k' (rw task valid)
        (ap (λ (x : IpcObject). x.wait_frame) here ∙ f) in
    rw (unlock-owned pid handle i k e typed (ground (arith, eqb_refl pid)) waits) (
      refl,
      ap (λ (x : IpcObject). x.lock_owner) after,
      ap (λ (x : IpcObject). no_wait x.wait_kind) after,
      w.1,
      subst (λ t. ((ipc_wake_waiter i 0 0 false k').sched.tasks t).state ≡ TaskState.ready) task
          w.0,
    )
