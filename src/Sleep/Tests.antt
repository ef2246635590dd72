-- ===== src/Sleep/Tests.antt =====
-- The sleep queue on the sample state.
use halaos_stm32f103_hardwar.Prelude.{
  ℕ, ◌+◌, ◌-◌, ◌≤◌, ◌≡◌, refl, false, ◌∷◌, [], ◌++◌, arith, has, All, max,
}
use halaos_stm32f103_hardwar.Chain.{Chain}
use halaos_stm32f103_hardwar.Kernel.{TaskState, is_ready}
use halaos_stm32f103_hardwar.Samples.{sample}
use halaos_stm32f103_hardwar.Samples.Queues.{sample_sleepers, sample-Sleepers}
use halaos_stm32f103_hardwar.Sleep.{sleep_insert, sleep_remove, sleep_advance, task_make_ready}
use halaos_stm32f103_hardwar.Sleep.Slots.{
  Entries, names, Sleepers, drop_task, insert_due, sleep_next,
}
use halaos_stm32f103_hardwar.Sleep.Insert.{sleep_insert-insert_due}
use halaos_stm32f103_hardwar.Sleep.Remove.{sleep_remove-drop_task}
use halaos_stm32f103_hardwar.Sleep.Advance.{sleep_advance-split}
use halaos_stm32f103_hardwar.Sleep.Tie.{sleep_advance-tie}
use halaos_stm32f103_hardwar.Sleep.Wake.{task_make_ready-cuts}

sleep_insert-insert_due_example :
    Sleepers
      (sleep_insert 4 5 sample)
      100
      (insert_due 4 (100 + max 1 5) (drop_task 4 sample_sleepers))
sleep_insert-insert_due_example =
    sleep_insert-insert_due 4 5 100 sample sample_sleepers sample-Sleepers (omega arith)
      (omega arith)

sleep_remove-drop_task_example : Sleepers (sleep_remove 2 sample) 100 (drop_task 2 sample_sleepers)
sleep_remove-drop_task_example = sleep_remove-drop_task 2 100 sample sample_sleepers sample-Sleepers

sleep_advance-split_example :
    let r = sleep_advance 5 sample in
    (woken rest : Entries) × (sample_sleepers ≡ woken ++ rest)
    × Sleepers r (100 + 5) rest
    × All (λ e. e.1 ≤ 100 + 5) woken
    × All (λ e. 100 + 5 ≤ e.1) rest
    × All (λ e. (r.tasks e.0).state ≡ TaskState.ready) woken
    × ((z : ℕ) → has z (names woken) ≡ false → (r.tasks z).state ≡ (sample.tasks z).state)
sleep_advance-split_example =
    sleep_advance-split 5 100 sample sample_sleepers sample-Sleepers (omega arith)

sleep_advance-tie_example :
    let r = sleep_advance (103 - 100) sample in
    Sleepers r 103 ((2, 103) ∷ (10, 107) ∷ []) × ((r.tasks 2).state ≡ (sample.tasks 2).state)
sleep_advance-tie_example =
    sleep_advance-tie 100 103 9 2 sample ((10, 107) ∷ []) sample-Sleepers (omega arith)

task_make_ready-cuts_example :
    let r = task_make_ready 2 sample in
    Chain (sleep_next r) r.sleep_head (names ((9, 103) ∷ []) ++ 2 ∷ [])
    × ((r.tasks 2).state ≡ TaskState.ready)
unfolding is_ready
task_make_ready-cuts_example =
    task_make_ready-cuts 100 2 103 sample ((9, 103) ∷ []) ((10, 107) ∷ []) sample-Sleepers refl
