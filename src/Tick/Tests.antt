-- ===== src/Tick/Tests.antt =====
-- The accounting of a tick on the sample state.
use halaos_stm32f103_hardwar.Prelude.{◌-◌, ◌≡◌, refl, arith, ◌==◌, if◌then◌else◌}
use halaos_stm32f103_hardwar.Kernel.{TaskState, Sched}
use halaos_stm32f103_hardwar.Samples.{sample}
use halaos_stm32f103_hardwar.Samples.Queues.{sample_sleepers, sample-Sleepers}
use halaos_stm32f103_hardwar.Sleep.Slots.{Sleepers, drop_task, insert_due}
use halaos_stm32f103_hardwar.Tick.{rt_account, deadline_account}
use halaos_stm32f103_hardwar.Tick.Budget.{IsBudget, clock, rt_account-IsBudget}
use halaos_stm32f103_hardwar.Tick.Release.{due_at, deadline_account-release}

sample-IsBudget : IsBudget 5 sample
sample-IsBudget = record {
  open_window = omega arith;
  used = omega arith;
  flag = refl;
  ticks = omega arith;
  start = omega arith;
}

rt_account-IsBudget_example : IsBudget 5 (rt_account 2 (clock 2 sample))
rt_account-IsBudget_example =
    rt_account-IsBudget 2 5 (omega arith) (omega arith) sample sample-IsBudget

-- The sample state while task 9 runs.
abbrev nine_runs : Sched
nine_runs = record sample { current = 9 }

deadline_account-release_example :
    let t = nine_runs.tasks 9 in
    let r = deadline_account 9 2 nine_runs in
    let left = t.deadline_remaining - 2 in
    Sleepers r 100 (
      if left == 0
      then insert_due 9 (due_at 100 t) (drop_task 9 sample_sleepers)
      else sample_sleepers)
    × ((r.tasks 9).state ≡ (if left == 0 then TaskState.sleep else t.state))
    × ((r.tasks 9).deadline_remaining ≡ left)
deadline_account-release_example =
    deadline_account-release 2 nine_runs sample_sleepers
      (record { slots = sample-Sleepers.slots; distinct = sample-Sleepers.distinct }) (omega arith)
      (omega arith) (omega arith)
