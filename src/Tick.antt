-- ===== src/Tick.antt =====
-- The accounting of a tick: rt_account and deadline_account of src/kernel/halaos_kernel.c.
pub mod Budget
pub mod Release
mod Tests
use halaos_stm32f103_hardwar.Prelude.{
  ℕ, ◌+◌, ◌-◌, ◌%◌, true, false, ◌&&◌, not, ◌==◌, ltb, leb, if◌then◌else◌, inc32, add32, sub32,
  u32_mod,
}
use halaos_stm32f103_hardwar.Kernel.{TaskState, Tcb, Sched, is_rt_policy}
use halaos_stm32f103_hardwar.Sleep.{set_task, sleep_insert}
use halaos_stm32f103_hardwar.Dispatch.{pend_resched}

abbrev pub rt_window_ticks : ℕ
rt_window_ticks = 100

abbrev pub rt_budget_ticks : ℕ
rt_budget_ticks = 80

-- The first test of rt_account: a window that is over is followed by a new one.
pub start_window : Sched → Sched
start_window k =
    if leb rt_window_ticks (sub32 k.ticks k.rt_window_start)
    then record k { rt_window_start = k.ticks; rt_used = 0; rt_throttled = false }
    else k

-- The second: `step` ticks of a real-time task.
pub charge_rt : ℕ → Sched → Sched
charge_rt step k =
    let k' = record k { rt_used = add32 k.rt_used step } in
    if leb rt_budget_ticks k'.rt_used && not k.rt_throttled
    then pend_resched
        (record k' { rt_throttled = true; rt_throttle_count = inc32 k.rt_throttle_count })
    else k'

unfoldable pub rt_account : ℕ → Sched → Sched
rt_account step k =
    let k' = start_window k in
    if is_rt_policy (k'.tasks k'.current).policy then charge_rt step k' else k'

-- The first two tests of deadline_account, on the TCB and on g_deadline_misses.
pub charge_deadline : ℕ → ℕ → Tcb → Tcb
charge_deadline now step t = record t {
  deadline_remaining = t.deadline_remaining - step;
  deadline_misses = if ltb t.abs_deadline now then inc32 t.deadline_misses else t.deadline_misses;
}

-- `wait`, for a task whose runtime is used up.
pub release_wait : ℕ → Tcb → ℕ
release_wait now t =
    if ltb now t.next_release then (t.next_release - now) % u32_mod else t.deadline_period

-- The third test, on the task `i`.
pub throttle : ℕ → Sched → Sched
throttle i k =
    let t = k.tasks i in
    let t' = record t { throttle_count = inc32 t.throttle_count; state = TaskState.sleep } in
    let k' = set_task i t' (record k { deadline_throttles = inc32 k.deadline_throttles }) in
    if t.deadline_remaining == 0
    then pend_resched (sleep_insert k.current (release_wait k.ticks t) k')
    else k

-- deadline_account(&g_tasks[i], step)
unfoldable pub deadline_account : ℕ → ℕ → Sched → Sched
deadline_account i step k =
    let t = k.tasks i in
    let misses =
      if ltb t.abs_deadline k.ticks then inc32 k.deadline_misses else k.deadline_misses in
    throttle i (set_task i (charge_deadline k.ticks step t) (record k { deadline_misses = misses }))
