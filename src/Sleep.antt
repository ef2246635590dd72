-- ===== src/Sleep.antt =====
-- The delta queue of sleeping tasks: sleep_remove, sleep_insert, task_make_ready and
-- sleep_advance of src/kernel/halaos_kernel.c.
pub mod Advance
pub mod Frame
pub mod Place
pub mod Insert
pub mod Unlink
pub mod Remove
pub mod Slots
mod Tests
pub mod Tie
pub mod Wake
pub mod Woke
use halaos_stm32f103_hardwar.Prelude.{
  ℕ, zero, suc, ◌+◌, ◌%◌, true, false, ◌||◌, ◌==◌, ltb, leb, if◌then◌else◌, update, inc32, add32,
  sub32, u64_mod,
}
use halaos_stm32f103_hardwar.Chain.{invalid_idx, max_tasks}
use halaos_stm32f103_hardwar.Kernel.{TaskState, Tcb, Sched, is_ready, is_rt_policy, is_deadline}
use halaos_stm32f103_hardwar.Ready.{rt_enqueue}

abbrev pub set_task : ℕ → Tcb → Sched → Sched
set_task i t k = record k { tasks = update k.tasks i t }

abbrev pub set_sleep_next : ℕ → ℕ → Sched → Sched
set_sleep_next i v k = set_task i (record (k.tasks i) { sleep_next = v }) k

abbrev pub set_sleep_delta : ℕ → ℕ → Sched → Sched
set_sleep_delta i v k = set_task i (record (k.tasks i) { sleep_delta = v }) k

-- The body of the loop of sleep_remove at `cur == idx`.
pub unlink_sleeper : ℕ → ℕ → Sched → Sched
unlink_sleeper prev cur k =
    let next = (k.tasks cur).sleep_next in
    let k₁ =
      if next == invalid_idx
      then k
      else set_sleep_delta next (add32 (k.tasks next).sleep_delta (k.tasks cur).sleep_delta) k in
    let k₂ =
      if prev == invalid_idx
      then record k₁ { sleep_head = next }
      else set_sleep_next prev next k₁ in
    set_task cur (record (k₂.tasks cur) { sleep_next = invalid_idx; sleep_delta = 0 }) k₂

-- The walk over the queue, on fuel: it returns `k` when the fuel is used up.
pub sleep_remove_loop : ℕ → ℕ → ℕ → ℕ → Sched → Sched
sleep_remove_loop zero idx prev cur k = k
sleep_remove_loop (suc fuel) idx prev cur k =
    let rest = sleep_remove_loop fuel idx cur (k.tasks cur).sleep_next k in
    if cur == invalid_idx then k else if cur == idx then unlink_sleeper prev cur k else rest

unfoldable pub sleep_remove : ℕ → Sched → Sched
sleep_remove idx k = sleep_remove_loop (max_tasks + 1) idx invalid_idx k.sleep_head k

-- The writes of sleep_insert behind its loop.
pub place_sleeper : ℕ → ℕ → ℕ → ℕ → Sched → Sched
place_sleeper idx prev cur remain k =
    let k₁ = set_task idx (record (k.tasks idx) { sleep_delta = remain; sleep_next = cur }) k in
    let k₂ =
      if cur == invalid_idx
      then k₁
      else set_sleep_delta cur (sub32 (k₁.tasks cur).sleep_delta remain) k₁ in
    if prev == invalid_idx then record k₂ { sleep_head = idx } else set_sleep_next prev idx k₂

-- The loop of sleep_insert, on fuel, followed by those writes.
pub sleep_insert_loop : ℕ → ℕ → ℕ → ℕ → ℕ → Sched → Sched
sleep_insert_loop zero idx prev cur remain k = k
sleep_insert_loop (suc fuel) idx prev cur remain k =
    let delta = (k.tasks cur).sleep_delta in
    let rest = sleep_insert_loop fuel idx cur (k.tasks cur).sleep_next (sub32 remain delta) k in
    if (cur == invalid_idx) || ltb remain delta then place_sleeper idx prev cur remain k else rest

unfoldable pub sleep_insert : ℕ → ℕ → Sched → Sched
sleep_insert idx ticks k =
    let wait = if ticks == 0 then 1 else ticks in
    let k' = sleep_remove idx k in
    sleep_insert_loop (max_tasks + 1) idx invalid_idx k'.sleep_head wait k'

pub mark_ready : ℕ → Sched → Sched
mark_ready idx k =
    set_task idx
      (record (k.tasks idx) { state = TaskState.ready; sleep_next = invalid_idx; sleep_delta = 0 })
      k

pub enlist : ℕ → Sched → Sched
enlist idx k = if is_rt_policy (k.tasks idx).policy then rt_enqueue idx k else k

unfoldable pub task_make_ready : ℕ → Sched → Sched
task_make_ready idx k =
    let k' = enlist idx (mark_ready idx k) in
    if is_ready (k.tasks idx).state
    then k
    else record k' { wakeup_count = inc32 k'.wakeup_count; need_resched = true }

-- The new period of a DEADLINE task that wakes up.
pub refill : ℕ → Sched → Sched
refill h k =
    let t = k.tasks h in
    let next_deadline = (k.ticks + t.deadline_period) % u64_mod in
    if is_deadline t.policy
    then set_task h
        (record t {
          deadline_remaining = t.deadline_runtime;
          abs_deadline = next_deadline;
          next_release = next_deadline;
        })
        k
    else k

-- One round of the loop of sleep_advance for a head that is due.
pub detach : ℕ → Sched → Sched
detach h k =
    set_task h (record (k.tasks h) { sleep_delta = 0; sleep_next = invalid_idx })
      (record k { sleep_head = (k.tasks h).sleep_next })

pub wake_head : ℕ → Sched → Sched
wake_head h k = task_make_ready h (refill h (detach h k))

-- Each round takes a task off the queue or ends the loop; the fuel is one more than MAX_TASKS.
pub sleep_advance_loop : ℕ → ℕ → Sched → Sched
sleep_advance_loop zero elapsed k = k
sleep_advance_loop (suc fuel) elapsed k =
    let h = k.sleep_head in
    let delta = (k.tasks h).sleep_delta in
    let rest = sleep_advance_loop fuel (sub32 elapsed delta) (wake_head h k) in
    if (elapsed == 0) || (h == invalid_idx)
    then k
    else if ltb elapsed delta
    then set_sleep_delta h (sub32 delta elapsed) k
    else rest

unfoldable pub sleep_advance : ℕ → Sched → Sched
sleep_advance elapsed k = sleep_advance_loop (max_tasks + 1) elapsed k
