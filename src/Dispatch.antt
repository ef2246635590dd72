-- ===== src/Dispatch.antt =====
-- The choice of the next task and the blocking of the current one: task_precedes, pick_deadline,
-- pick_fair, sched_pick_next, hala_schedule_next, pend_resched, block_current and
-- stack_guard_check of src/kernel/halaos_kernel.c.
pub mod Block
pub mod Deadline
pub mod Fair
pub mod Least
pub mod Pick
pub mod Precedes
mod Tests
use halaos_stm32f103_hardwar.Prelude.{
  ℕ, zero, suc, ◌+◌, ◌-◌, ◌*◌, ◌/◌, ◌%◌, Bool, true, false, not, ◌&&◌, ◌||◌, List, [], ◌∷◌, ◌==◌,
  ltb, max, if◌then◌else◌, update, inc32, u64_mod,
}
use halaos_stm32f103_hardwar.Chain.{invalid_idx, max_tasks}
use halaos_stm32f103_hardwar.Kernel.{
  TaskState, Policy, Tcb, Sched, is_ready, is_rt_policy, is_fair_policy, is_deadline, is_sleep,
}
use halaos_stm32f103_hardwar.Ready.{rt_remove, highest_rt}
use halaos_stm32f103_hardwar.Sleep.{set_task, sleep_insert}

abbrev pub stack_pattern : ℕ
stack_pattern = 0xA5A5A5A5

unfoldable pub task_precedes : Tcb → Tcb → Bool
task_precedes a b =
    if is_deadline a.policy && not (is_deadline b.policy)
    then true
    else if is_deadline b.policy && not (is_deadline a.policy)
    then false
    else if is_rt_policy a.policy && (not (is_rt_policy b.policy) && not (is_rt_policy b.policy))
    then true
    else if is_rt_policy b.policy && not (is_rt_policy a.policy)
    then false
    else if is_rt_policy a.policy && is_rt_policy b.policy
    then ltb a.effective_prio b.effective_prio
    else if is_fair_policy a.policy && is_fair_policy b.policy
    then ltb a.virtual_deadline b.virtual_deadline
    else false

-- The test of the loop of pick_deadline, but for the comparison with `d`.
abbrev pub can_run : Tcb → Bool
can_run t = is_ready t.state && (is_deadline t.policy && not (t.deadline_remaining == 0))

-- The loop of pick_deadline from task `i` on, with `left` tasks to go.
pub deadline_scan : ℕ → ℕ → ℕ → ℕ → Sched → ℕ
deadline_scan zero i best d k = best
deadline_scan (suc left) i best d k =
    let t = k.tasks i in
    let better = can_run t && ltb t.abs_deadline d in
    deadline_scan left (i + 1) (if better then i else best) (if better then t.abs_deadline else d) k

-- `if (scan > g_scheduler_max_scan) g_scheduler_max_scan = scan;` with `scan` at MAX_TASKS.
abbrev pub note_scan : Sched → Sched
note_scan k = record k { scheduler_max_scan = max k.scheduler_max_scan max_tasks }

unfoldable pub pick_deadline : Sched → ℕ × Sched
pick_deadline k = (deadline_scan max_tasks 0 invalid_idx (u64_mod - 1) k, note_scan k)

-- The virtual deadline that pick_fair gives a task that has none.
abbrev pub first_deadline : Tcb → ℕ
first_deadline t =
    if t.virtual_deadline == 0
    then (t.vruntime + 4 * 1024 / t.weight) % u64_mod
    else t.virtual_deadline

abbrev pub is_fair_ready : Tcb → Bool
is_fair_ready t = is_ready t.state && is_fair_policy t.policy

-- The loop of pick_fair, which fills in virtual deadlines as it goes.
pub fair_scan : ℕ → ℕ → ℕ → ℕ → Sched → ℕ × Sched
fair_scan zero i best vd k = (best, k)
fair_scan (suc left) i best vd k =
    let t = k.tasks i in
    let t' = record t { virtual_deadline = first_deadline t } in
    let k' = if is_fair_ready t then set_task i t' k else k in
    let better = is_fair_ready t && ltb t'.virtual_deadline vd in
    fair_scan left (i + 1) (if better then i else best) (if better then t'.virtual_deadline else vd)
      k'

unfoldable pub pick_fair : Sched → ℕ × Sched
pick_fair k =
    let (best, k₁) = fair_scan max_tasks 0 invalid_idx (u64_mod - 1) k in
    let k₂ = note_scan k₁ in
    (best, if best == invalid_idx then k₂ else record k₂ { fair_picks = inc32 k₂.fair_picks })

-- What sched_pick_next does once no DEADLINE task can run.
pub pick_rt_or_fair : Sched → ℕ × Sched
pick_rt_or_fair k =
    let rt = highest_rt k in
    let (fair, k') = pick_fair k in
    if not k.rt_throttled && not (rt == invalid_idx)
    then (rt, k)
    else (if fair == invalid_idx then 0 else fair, k')

unfoldable pub sched_pick_next : Sched → ℕ × Sched
sched_pick_next k =
    let k₀ = record k { scheduler_calls = inc32 k.scheduler_calls } in
    let (idx, k₁) = pick_deadline k₀ in
    if idx == invalid_idx
    then pick_rt_or_fair k₁
    else (idx, record k₁ { deadline_picks = inc32 k₁.deadline_picks })

-- `t->stack_low[0] != STACK_PATTERN`; a task with no stack has no guard word.
unfoldable pub stack_guard_check : Tcb → Sched → Sched
stack_guard_check t k = elim t.stack [
  | [] ↦ k
  | w ∷ ws ↦
      if w == stack_pattern then k else record k { stack_corruption = inc32 k.stack_corruption }
]

-- The counters of a switch from `old` to `next`.
pub count_switch : ℕ → ℕ → Sched → Sched
count_switch old next k =
    let k₁ =
      set_task old (record (k.tasks old) { involuntary = inc32 (k.tasks old).involuntary }) k in
    let k₂ =
      set_task next (record (k₁.tasks next) { switches = inc32 (k₁.tasks next).switches }) k₁ in
    if next == old then k else record k₂ { switches = inc32 k₂.switches }

unfoldable pub hala_schedule_next : Sched → Sched
hala_schedule_next k =
    let old = k.current in
    let (next, k₁) = sched_pick_next (stack_guard_check (k.tasks old) k) in
    record (count_switch old next k₁) { current = next; need_resched = false }

unfoldable pub pend_resched : Sched → Sched
pend_resched k = record k { need_resched = true; pendsv = k.pendsv || (k.preempt_count == 0) }

-- The parts of block_current: off the ready queue, the new state, onto the sleep queue.
pub unready : ℕ → Sched → Sched
unready idx k = if is_rt_policy (k.tasks idx).policy then rt_remove idx k else k

pub set_blocked : TaskState → ℕ → Sched → Sched
set_blocked state idx k =
    let t = k.tasks idx in
    set_task idx (record t { state = state; voluntary = inc32 t.voluntary }) k

pub sleep_if : TaskState → ℕ → ℕ → Sched → Sched
sleep_if state idx ticks k = if is_sleep state then sleep_insert idx ticks k else k

unfoldable pub block_current : TaskState → ℕ → Sched → Sched
block_current state ticks k =
    let idx = k.current in
    pend_resched (sleep_if state idx ticks (set_blocked state idx (unready idx k)))
