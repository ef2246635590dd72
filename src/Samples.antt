-- ===== src/Samples.antt =====
-- A small kernel state for the tests: two real-time tasks in a ready queue, the shell, and three
-- sleepers, two of them due at the same time.
pub mod Code
pub mod Queues
use halaos_stm32f103_hardwar.Prelude.{ℕ, true, false, List, [], ◌∷◌, ◌==◌, if◌then◌else◌, update}
use halaos_stm32f103_hardwar.Chain.{invalid_idx}
use halaos_stm32f103_hardwar.Kernel.{Policy, TaskState, Tcb, Sched}

abbrev pub blank : Tcb
blank = record {
  stack = [];
  caps = 0;
  runtime = 0;
  vruntime = 0;
  virtual_deadline = 0;
  abs_deadline = 0;
  next_release = 0;
  deadline_period = 0;
  deadline_runtime = 0;
  deadline_remaining = 0;
  slice_used = 0;
  switches = 0;
  voluntary = 0;
  involuntary = 0;
  deadline_misses = 0;
  throttle_count = 0;
  pid = 0;
  weight = 100;
  stack_peak = 0;
  state = TaskState.blocked;
  policy = Policy.normal;
  base_prio = 0;
  effective_prio = 0;
  quantum = 10;
  quantum_left = 10;
  ready_next = invalid_idx;
  sleep_next = invalid_idx;
  sleep_delta = 0;
  load_enabled = false;
  name = [];
}

-- Tasks 4 and 5 are in the queue of level 6; 9, 2 and 10 sleep, for 3, 3 and 7 ticks.
abbrev pub sample_task : ℕ → Tcb
sample_task i =
    if i == 1
    then record blank { state = TaskState.ready; virtual_deadline = 40 }
    else if i == 2
    then record blank { state = TaskState.sleep; sleep_next = 10 }
    else if i == 4
    then record blank {
      policy = Policy.rr;
      state = TaskState.ready;
      effective_prio = 6;
      ready_next = 5;
    }
    else if i == 5
    then record blank { policy = Policy.rr; state = TaskState.ready; effective_prio = 6 }
    else if i == 6
    then record blank { policy = Policy.fifo; effective_prio = 6 }
    else if i == 9
    then record blank {
      policy = Policy.deadline;
      state = TaskState.sleep;
      sleep_next = 2;
      sleep_delta = 3;
      deadline_period = 20;
      deadline_runtime = 5;
    }
    else if i == 10
    then record blank { state = TaskState.sleep; sleep_delta = 4 }
    else blank

abbrev pub sample : Sched
sample = record {
  tasks = sample_task;
  current = 4;
  ticks = 100;
  switches = 0;
  need_resched = false;
  preempt_count = 0;
  pendsv = false;
  tick_step = 1;
  scheduler_calls = 0;
  scheduler_max_scan = 0;
  load_mode = 0;
  tickless_entries = 0;
  tickless_skipped = 0;
  systick_reload = 7999;
  rt_window_start = 60;
  rt_used = 39;
  rt_throttled = false;
  rt_throttle_count = 0;
  wakeup_count = 0;
  rr_rotations = 0;
  fifo_ticks = 0;
  fair_picks = 0;
  deadline_picks = 0;
  deadline_misses = 0;
  deadline_throttles = 0;
  index_ticks = λ i. 0;
  stack_corruption = 0;
  in_systick = false;
  rt_head = λ p. if p == 6 then 4 else invalid_idx;
  rt_tail = λ p. if p == 6 then 5 else invalid_idx;
  rt_bitmap = λ p. p == 6;
  sleep_head = 9;
}
