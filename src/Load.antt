-- ===== src/Load.antt =====
-- The load generator, load_disable_all and load_enable of src/services/halaos_runtime.c, on the
-- tasks 4 to 9: two RR tasks, a FIFO task, two fair tasks and a DEADLINE task.
pub mod Enable
pub mod Modes
pub mod Quiet
mod Tests
use halaos_stm32f103_hardwar.Prelude.{
  ℕ, zero, suc, ◌+◌, ◌-◌, ◌*◌, ◌%◌, Bool, true, false, ◌&&◌, ◌||◌, ◌==◌, if◌then◌else◌, update,
  u64_mod,
}
use halaos_stm32f103_hardwar.Kernel.{TaskState, Tcb, Sched, is_rt_policy}
use halaos_stm32f103_hardwar.Ready.{rt_enqueue, rt_remove}
use halaos_stm32f103_hardwar.Sleep.{set_task}
use halaos_stm32f103_hardwar.Dispatch.{pend_resched}
use halaos_stm32f103_hardwar.Systick.{tick_cycles}

unfoldable pub off_queue : ℕ → Sched → Sched
off_queue i k = if is_rt_policy (k.tasks i).policy then rt_remove i k else k

-- A round of load_disable_all.
unfoldable pub quiet : ℕ → Sched → Sched
quiet i k =
    let k₁ = off_queue i k in
    set_task i (record (k₁.tasks i) { state = TaskState.blocked; load_enabled = false }) k₁

unfoldable pub quiet_loop : ℕ → ℕ → Sched → Sched
quiet_loop zero i k = k
quiet_loop (suc left) i k = quiet_loop left (i + 1) (quiet i k)

unfoldable pub load_disable_all : Sched → Sched
load_disable_all k = pend_resched (record (quiet_loop 6 4 k) { load_mode = 0 })

-- What the four parts of load_enable have in common.
unfoldable pub enable_task : ℕ → Sched → Sched
enable_task i k =
    set_task i (record (k.tasks i) { state = TaskState.ready; load_enabled = true; runtime = 0 }) k

abbrev pub reset_ticks : ℕ → Sched → Sched
reset_ticks i k = record k { index_ticks = update k.index_ticks i 0 }

unfoldable pub enable_rr : ℕ → Sched → Sched
enable_rr i k =
    let k₁ = reset_ticks i (enable_task i k) in
    let t = k₁.tasks i in rt_enqueue i (set_task i (record t { quantum_left = t.quantum }) k₁)

-- The source sets both weights behind the loop over the tasks 7 and 8.
unfoldable pub enable_fair : ℕ → ℕ → ℕ → Sched → Sched
enable_fair i base weight k =
    let k₁ = reset_ticks i (enable_task i k) in
    let t = k₁.tasks i in
    set_task i (record t { vruntime = base; virtual_deadline = 0; weight = weight }) k₁

unfoldable pub enable_deadline : ℕ → Sched → Sched
enable_deadline i k =
    let k₁ = reset_ticks i (enable_task i k) in
    let t = k₁.tasks i in
    let due = (k.ticks + t.deadline_period) % u64_mod in
    set_task i
      (record t { deadline_remaining = t.deadline_runtime; abs_deadline = due; next_release = due })
      k₁

unfoldable pub enable_fifo : ℕ → Sched → Sched
enable_fifo i k = rt_enqueue i (enable_task i k)

-- The tick and the real-time window start anew; the register SYST_CVR is not part of the state.
abbrev pub restart_ticks : Sched → Sched
restart_ticks k = record k {
  tick_step = 1;
  systick_reload = tick_cycles - 1;
  rt_window_start = k.ticks;
  rt_used = 0;
  rt_throttled = false;
}

-- Each test is on `mode` alone, so that the parts are taken one after the other.
unfoldable pub load_enable : ℕ → Sched → Sched
load_enable mode k =
    let k₁ = restart_ticks k in
    let k₂ = record (load_disable_all k₁) { load_mode = mode } in
    let k₃ = if (mode == 1) || (mode == 4) then enable_rr 5 (enable_rr 4 k₂) else k₂ in
    let base = (k₃.tasks 1).vruntime in
    let k₄ =
      if (mode == 2) || (mode == 4)
      then enable_fair 8 base 100 (enable_fair 7 base 100 k₃)
      else k₃ in
    let k₅ = if mode == 5 then enable_fair 8 base 100 (enable_fair 7 base 200 k₄) else k₄ in
    let k₆ = if (mode == 3) || (mode == 4) then enable_deadline 9 k₅ else k₅ in
    let k₇ = if mode == 6 then enable_fifo 6 k₆ else k₆ in pend_resched k₇
