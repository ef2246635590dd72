-- ===== src/Systick.antt =====
-- The tick interrupt, SysTick_Handler of src/kernel/halaos_kernel.c, and the tickless idle mode of
-- src/services/halaos_runtime.c.
pub mod Slice
pub mod Idle
mod Tests
use halaos_stm32f103_hardwar.Prelude.{
  ℕ, ◌+◌, ◌-◌, ◌*◌, ◌/◌, ◌%◌, Bool, true, false, not, ◌&&◌, ◌||◌, ◌==◌, ltb, leb, if◌then◌else◌,
  update, inc32, add32, u32_mod, u64_mod, min, max,
}
use halaos_stm32f103_hardwar.Chain.{invalid_idx}
use halaos_stm32f103_hardwar.Kernel.{Policy, Tcb, Sched}
use halaos_stm32f103_hardwar.Ready.{rt_rotate}
use halaos_stm32f103_hardwar.Sleep.{set_task, sleep_advance}
use halaos_stm32f103_hardwar.Dispatch.{pend_resched, stack_guard_check}
use halaos_stm32f103_hardwar.Tick.{rt_account, deadline_account}
use halaos_stm32f103_hardwar.Ipc.{Kobj}
use halaos_stm32f103_hardwar.Ipc.Locks.{kobj_ipc_tick}

abbrev pub tick_cycles : ℕ
tick_cycles = 8000

-- The step of this tick, and the clock's part of the handler.
abbrev pub step_of : Sched → ℕ
step_of k = if k.tick_step == 0 then 1 else k.tick_step

unfoldable pub start_tick : Sched → Sched
start_tick k =
    let step = step_of k in
    let k' = record k { in_systick = true; ticks = add32 k.ticks step } in
    if ltb 1 step
    then record k' {
      tickless_skipped = add32 k.tickless_skipped (step - 1);
      tick_step = 1;
      systick_reload = tick_cycles - 1;
    }
    else k'

-- The tasks that have a counter of their own among g_shell_ticks … g_deadline_ticks.
abbrev pub has_counter : ℕ → Bool
has_counter i = (leb 1 i && leb i 5) || (leb 7 i && leb i 9)

unfoldable pub charge_index : ℕ → Sched → Sched
charge_index step k =
    let i = k.current in
    let t = k.tasks i in
    let k' = set_task i (record t { runtime = (t.runtime + step) % u64_mod }) k in
    if has_counter i
    then record k' { index_ticks = update k.index_ticks i (add32 (k.index_ticks i) step) }
    else k'

unfoldable pub charge_rr : ℕ → Sched → Sched
charge_rr step k =
    let i = k.current in
    let t = k.tasks i in
    if leb t.quantum_left step
    then pend_resched
        (rt_rotate t.effective_prio (set_task i (record t { quantum_left = t.quantum }) k))
    else set_task i (record t { quantum_left = t.quantum_left - step }) k

abbrev pub slice_limit : Policy → ℕ
slice_limit Policy.batch = 8
slice_limit _ = 4

-- The virtual time of `step` ticks.
abbrev pub virtual_step : ℕ → Tcb → ℕ
virtual_step step t = max 1 (step * 1024 % u32_mod / t.weight)

-- The TCB of a fair task after the step, and whether its slice is over.
abbrev pub fair_task : ℕ → Tcb → Tcb
fair_task step t = record t {
  vruntime = (t.vruntime + virtual_step step t) % u64_mod;
  slice_used = add32 t.slice_used step;
}

abbrev pub next_slice : Tcb → Tcb
next_slice t = record t {
  slice_used = 0;
  virtual_deadline = (t.vruntime + slice_limit t.policy * 1024 / t.weight) % u64_mod;
}

unfoldable pub charge_fair : ℕ → Sched → Sched
charge_fair step k =
    let i = k.current in
    let t = fair_task step (k.tasks i) in
    if leb (slice_limit t.policy) t.slice_used
    then pend_resched (set_task i (next_slice t) k)
    else set_task i t k

unfoldable pub charge_policy : Policy → ℕ → Sched → Sched
charge_policy Policy.rr step k = charge_rr step k
charge_policy Policy.fifo step k = record k { fifo_ticks = add32 k.fifo_ticks step }
charge_policy Policy.normal step k = charge_fair step k
charge_policy Policy.batch step k = charge_fair step k
charge_policy Policy.deadline step k = deadline_account k.current step k
charge_policy Policy.idle step k = k

-- The part of the handler on the running task, which stays the same throughout.
unfoldable pub charge_current : ℕ → Sched → Sched
charge_current step k =
    let k₁ = charge_index step k in
    let k₂ = stack_guard_check (k₁.tasks k₁.current) k₁ in
    charge_policy (k₂.tasks k₂.current).policy step k₂

unfoldable pub finish_tick : Sched → Sched
finish_tick k = record k {
  pendsv = k.pendsv || (k.need_resched && (k.preempt_count == 0));
  in_systick = false;
}

unfoldable pub systick_handler : Kobj → Kobj
systick_handler k =
    let step = step_of k.sched in
    let k₁ = record k { sched = sleep_advance step (start_tick k.sched) } in
    let k₂ = kobj_ipc_tick k₁.sched.ticks k₁ in
    record k₂ { sched = finish_tick (rt_account step (charge_current step k₂.sched)) }

-- The largest reload value of the timer, in ticks.
abbrev pub longest_idle : ℕ
longest_idle = 0x1FFFFF / tick_cycles

unfoldable pub next_event_ticks : Sched → ℕ
next_event_ticks k =
    let delta = (k.tasks k.sleep_head).sleep_delta in
    let n = if not (k.sleep_head == invalid_idx) && ltb delta 5 then delta else 5 in
    min longest_idle (max 2 n)

-- The write of 0 to SYST_CVR, which starts the count anew, is left out.
unfoldable pub enter_idle_tickless : Sched → Sched
enter_idle_tickless k =
    let n = next_event_ticks k in
    if not (k.load_mode == 0) || not (k.tick_step == 1)
    then k
    else if ltb 1 n
    then record k {
      tick_step = n;
      systick_reload = n * tick_cycles - 1;
      tickless_entries = inc32 k.tickless_entries;
    }
    else k
