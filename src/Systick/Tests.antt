-- ===== src/Systick/Tests.antt =====
-- Time slices and the idle mode on the sample state.
use halaos_stm32f103_hardwar.Prelude.{
  ◌+◌, ◌-◌, ◌*◌, ◌/◌, ◌%◌, ◌^◌, ◌≤◌, ◌<◌, ◌≡◌, refl, arith, leb, if◌then◌else◌, update, max,
  u64_mod,
}
use halaos_stm32f103_hardwar.Kernel.{Sched}
use halaos_stm32f103_hardwar.Ready.Invariant.{IsReadyQueues}
use halaos_stm32f103_hardwar.Ready.Rotate.{rotate}
use halaos_stm32f103_hardwar.Samples.{sample}
use halaos_stm32f103_hardwar.Samples.Queues.{sample_queues, sample-IsReadyQueues, sample-Sleepers}
use halaos_stm32f103_hardwar.Systick.{charge_rr, charge_fair, tick_cycles, enter_idle_tickless}
use halaos_stm32f103_hardwar.Systick.Slice.{IsShare, charge_rr-quantum, charge_fair-slice}
use halaos_stm32f103_hardwar.Systick.Idle.{enter_idle_tickless-bounds}
use halaos_stm32f103_hardwar.Prelude.{[], ◌∷◌}

charge_rr-quantum_example :
    let t = sample.tasks sample.current in
    let r = charge_rr 10 sample in
    (0 < (r.tasks sample.current).quantum_left)
    × ((r.tasks sample.current).quantum_left ≤ t.quantum)
    × IsReadyQueues r (
        if leb t.quantum_left 10
        then update sample_queues t.effective_prio (rotate (sample_queues t.effective_prio))
        else sample_queues)
charge_rr-quantum_example =
    charge_rr-quantum 10 sample sample_queues sample-IsReadyQueues (omega arith) (omega arith)

-- The sample state while the shell runs.
abbrev shell_runs : Sched
shell_runs = record sample { current = 1 }

charge_fair-slice_example :
    let t = shell_runs.tasks 1 in
    let t' = (charge_fair 5 shell_runs).tasks 1 in
    (t'.slice_used < 4)
    × (t.vruntime < t'.vruntime)
    × IsShare 5120 t.weight (t'.vruntime - t.vruntime)
    × (t'.virtual_deadline ≡ (
        if leb 4 (t.slice_used + 5)
        then (t'.vruntime + 4 * 1024 / t.weight) % u64_mod
        else t.virtual_deadline))
charge_fair-slice_example =
    charge_fair-slice 5 shell_runs (omega arith) (omega arith) (omega arith) (omega arith)

enter_idle_tickless-bounds_example :
    let r = enter_idle_tickless sample in
    (2 ≤ r.tick_step)
    × (r.tick_step ≤ 5)
    × (100 + r.tick_step ≤ max (100 + 2) 103)
    × (r.systick_reload + 1 ≡ r.tick_step * tick_cycles)
    × (r.systick_reload < 2 ^ 24)
enter_idle_tickless-bounds_example =
    enter_idle_tickless-bounds 100 9 103 sample ((2, 103) ∷ (10, 107) ∷ []) sample-Sleepers refl
      refl
