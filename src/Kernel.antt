-- ===== src/Kernel.antt =====
-- The scheduler's state: the TCB (`Tcb` of include/halaos/internal/halaos_internal.h) and the
-- globals that src/core/halaos_state.c defines for it.
use halaos_stm32f103_hardwar.Prelude.{ℕ, Bool, true, false, List}

-- POLICY_*
pub data Policy : Type 0 where
  idle fifo rr normal batch deadline : Policy

-- TASK_*
pub data TaskState : Type 0 where
  ready sleep blocked zombie stopped : TaskState

-- The saved stack pointer is left out; `stack` holds the words from `stack_low` to `stack_high`.
pub record Tcb : Type 0 where
  pub stack : List ℕ
  pub caps : ℕ
  pub runtime : ℕ
  pub vruntime : ℕ
  pub virtual_deadline : ℕ
  pub abs_deadline : ℕ
  pub next_release : ℕ
  pub deadline_period : ℕ
  pub deadline_runtime : ℕ
  pub deadline_remaining : ℕ
  pub slice_used : ℕ
  pub switches : ℕ
  pub voluntary : ℕ
  pub involuntary : ℕ
  pub deadline_misses : ℕ
  pub throttle_count : ℕ
  pub pid : ℕ
  pub weight : ℕ
  pub stack_peak : ℕ
  pub state : TaskState
  pub policy : Policy
  pub base_prio : ℕ
  pub effective_prio : ℕ
  pub quantum : ℕ
  pub quantum_left : ℕ
  pub ready_next : ℕ
  pub sleep_next : ℕ
  pub sleep_delta : ℕ
  pub load_enabled : Bool
  pub name : List ℕ

-- The arrays are functions of the index, and `rt_bitmap` is the function from a bit to its value.
-- `current` is g_current_index; g_current is always the address of that task.
-- `pendsv` is set by the writes of PENDSVSET to SCB_ICSR.
pub record Sched : Type 0 where
  pub tasks : ℕ → Tcb
  pub current : ℕ
  pub ticks : ℕ
  pub switches : ℕ
  pub need_resched : Bool
  pub preempt_count : ℕ
  pub pendsv : Bool
  pub tick_step : ℕ
  pub scheduler_calls : ℕ
  pub scheduler_max_scan : ℕ
  pub load_mode : ℕ
  pub tickless_entries : ℕ
  pub tickless_skipped : ℕ
  pub systick_reload : ℕ
  pub rt_window_start : ℕ
  pub rt_used : ℕ
  pub rt_throttled : Bool
  pub rt_throttle_count : ℕ
  pub wakeup_count : ℕ
  pub rr_rotations : ℕ
  pub fifo_ticks : ℕ
  pub fair_picks : ℕ
  pub deadline_picks : ℕ
  pub deadline_misses : ℕ
  pub deadline_throttles : ℕ
  pub index_ticks : ℕ → ℕ
  pub stack_corruption : ℕ
  pub in_systick : Bool
  pub rt_head : ℕ → ℕ
  pub rt_tail : ℕ → ℕ
  pub rt_bitmap : ℕ → Bool
  pub sleep_head : ℕ

unfoldable pub is_rt_policy : Policy → Bool
is_rt_policy Policy.fifo = true
is_rt_policy Policy.rr = true
is_rt_policy _ = false

unfoldable pub is_fair_policy : Policy → Bool
is_fair_policy Policy.normal = true
is_fair_policy Policy.batch = true
is_fair_policy _ = false

unfoldable pub is_deadline : Policy → Bool
is_deadline Policy.deadline = true
is_deadline _ = false

unfoldable pub is_ready : TaskState → Bool
is_ready TaskState.ready = true
is_ready _ = false

unfoldable pub is_sleep : TaskState → Bool
is_sleep TaskState.sleep = true
is_sleep _ = false

unfoldable pub is_blocked : TaskState → Bool
is_blocked TaskState.blocked = true
is_blocked _ = false
