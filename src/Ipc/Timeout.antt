-- ===== src/Ipc/Timeout.antt =====
-- kobj_ipc_tick: what becomes of the tasks that wait on an object.
use halaos_stm32f103_hardwar.Prelude.{
  minus, ℕ, zero, suc, ◌+◌, ◌<◌, ◌≡◌, refl, ap, ◌∙◌, Bool, true, false, not, ◌&&◌, some, arith,
  ◌==◌, ltb, if◌then◌else◌, inl, inr, Bool-cases, eqb_refl, eqb→eq, inc32,
}
use halaos_stm32f103_hardwar.Chain.{max_tasks}
use halaos_stm32f103_hardwar.Kernel.{TaskState}
use halaos_stm32f103_hardwar.Sleep.Woke.{task_make_ready-Woke}
use halaos_stm32f103_hardwar.Ipc.{
  IpcObject, Kobj, max_ipc, ipc_wake_waiter, wake_task, store, clear_waiter, no_wait,
}
use halaos_stm32f103_hardwar.Ipc.Handle.{ipc_wake_waiter-objects}
use halaos_stm32f103_hardwar.Ipc.Locks.{kobj_ipc_tick, tick_loop, tick_object, expired}

-- A task waits on the object, and its time is over at `now`.
abbrev pub is_due : ℕ → IpcObject → Bool
is_due now o = (o.used && not (no_wait o.wait_kind)) && expired now o

tick_object-objects :
    (now i j : ℕ) (k : Kobj)
    → (tick_object now i k).objects j
      ≡ (if (j == i) && is_due now (k.objects j) then clear_waiter (k.objects j) else k.objects j)
unfolding tick_object
tick_object-objects now i j k = elim (Bool-cases (j == i)) [
  | inl same ↦ rw (same, eqb→eq j i same) (at_index now i k)
  | inr other ↦ rw other (elim (Bool-cases (is_due now (k.objects i))) [
    | inl due ↦ rw due (
        ap (λ (f : ℕ → IpcObject). f j)
          (ipc_wake_waiter-objects i (minus 110) 0 false
            (record k { ipc_timeouts = inc32 k.ipc_timeouts }))
        ∙ ground arith)
    | inr early ↦ rw early refl
  ])
]
  where
    at_index :
        (now i : ℕ) (k : Kobj)
        → (tick_object now i k).objects i
          ≡ (if is_due now (k.objects i) then clear_waiter (k.objects i) else k.objects i)
    at_index now i k = elim (Bool-cases (is_due now (k.objects i))) [
      | inl due ↦ rw due (
          ap (λ (f : ℕ → IpcObject). f i)
            (ipc_wake_waiter-objects i (minus 110) 0 false
              (record k { ipc_timeouts = inc32 k.ipc_timeouts }))
          ∙ ground (arith, eqb_refl i))
      | inr early ↦ rw early refl
    ]

-- The loop from object `i` on: the objects below `i` are done.
tick_loop-objects :
    (left i now j : ℕ) (k : Kobj)
    → (tick_loop left i now k).objects j ≡ (
        if (not (ltb j i) && ltb j (i + left)) && is_due now (k.objects j)
        then clear_waiter (k.objects j)
        else k.objects j)
unfolding tick_loop
tick_loop-objects zero i now j k = ground arith
tick_loop-objects (suc left) i now j k =
    let rest = tick_loop-objects left (i + 1) now j (tick_object now i k) in
    let step = tick_object-objects now i j k in
    elim (Bool-cases (j == i)) [
      | inl same ↦
          let past : not (ltb j (i + 1)) ≡ false = ground arith in
          let now_here : (not (ltb j i) && ltb j (i + suc left)) ≡ true = ground arith in
          rw (rest, past, step, same, now_here) refl
      | inr other ↦
          let later : (not (ltb j (i + 1)) && ltb j (i + 1 + left))
              ≡ (not (ltb j i) && ltb j (i + suc left)) =
            ground arith in
          let kept : (tick_object now i k).objects j ≡ k.objects j =
            step ∙ not_here j i now k other in
          rw (rest, later, kept) refl
    ]
  where
    not_here :
        (j i now : ℕ) (k : Kobj)
        → (j == i) ≡ false
        → (if (j == i) && is_due now (k.objects j) then clear_waiter (k.objects j) else k.objects j)
          ≡ k.objects j
    not_here j i now k other = rw other refl

-- After kobj_ipc_tick each of the objects on which a task waited whose time is over at `now` has
-- no waiter, and every other object is as it was.
pub kobj_ipc_tick-clear_waiter :
    (now j : ℕ) (k : Kobj)
    → j < max_ipc
    → (kobj_ipc_tick now k).objects j
      ≡ (if is_due now (k.objects j) then clear_waiter (k.objects j) else k.objects j)
unfolding kobj_ipc_tick
kobj_ipc_tick-clear_waiter now j k lt =
    let all : (not (ltb j 0) && ltb j (0 + max_ipc)) ≡ true = ground arith in
    tick_loop-objects max_ipc 0 now j k ∙ rw all refl

-- The waiter is READY, and its call returns `result`.
pub ipc_wake_waiter-returns :
    (i result value frame : ℕ) (write : Bool) (k : Kobj)
    → (k.objects i).wait_task < max_tasks
    → (k.objects i).wait_frame ≡ some frame
    → let r = ipc_wake_waiter i result value write k in
      ((r.sched.tasks (k.objects i).wait_task).state ≡ TaskState.ready) × (r.frames frame ≡ result)
unfolding ipc_wake_waiter wake_task store
ipc_wake_waiter-returns i result value frame write k lt e =
    let valid : ltb (k.objects i).wait_task max_tasks ≡ true = ground arith in
    rw (valid, e)
      ((task_make_ready-Woke (k.objects i).wait_task k.sched).ready, ground (arith, eqb_refl frame))

pub ipc_wake_waiter-memory :
    (i result value address : ℕ) (k : Kobj)
    → (k.objects i).wait_byte ≡ some address
    → (ipc_wake_waiter i result value true k).memory address ≡ value
unfolding ipc_wake_waiter wake_task store
ipc_wake_waiter-memory i result value address k e =
    elim (Bool-cases (ltb (k.objects i).wait_task max_tasks)) [
      | inl valid ↦ rw (valid, e) (ground (arith, eqb_refl address))
      | inr other ↦ rw (other, e) (ground (arith, eqb_refl address))
    ]
