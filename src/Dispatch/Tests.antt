-- ===== src/Dispatch/Tests.antt =====
-- The scheduler's choice on the sample state.
use halaos_stm32f103_hardwar.Prelude.{◌+◌, ◌≡◌, ◌⊎◌, arith, max}
use halaos_stm32f103_hardwar.Kernel.{TaskState}
use halaos_stm32f103_hardwar.Samples.{sample}
use halaos_stm32f103_hardwar.Samples.Queues.{
  sample_queues, sample_sleepers, sample-IsReadyQueues, sample-Sleepers,
}
use halaos_stm32f103_hardwar.Ready.Invariant.{IsReadyQueues}
use halaos_stm32f103_hardwar.Sleep.Slots.{Sleepers}
use halaos_stm32f103_hardwar.Dispatch.{sched_pick_next, block_current}
use halaos_stm32f103_hardwar.Dispatch.Deadline.{IsEarliest, NoDeadline}
use halaos_stm32f103_hardwar.Dispatch.Pick.{SecondChoice, sched_pick_next-order}
use halaos_stm32f103_hardwar.Dispatch.Block.{without_current, sleep_entries, block_current-queues}

sched_pick_next-order_example :
    let i = (sched_pick_next sample).0 in
    IsEarliest sample i ⊎ (NoDeadline sample × SecondChoice sample sample_queues i)
sched_pick_next-order_example = sched_pick_next-order sample sample_queues sample-IsReadyQueues

block_current-queues_example :
    let r = block_current TaskState.sleep 4 sample in
    IsReadyQueues r (without_current sample sample_queues)
    × Sleepers r 100 (sleep_entries TaskState.sleep 4 (100 + max 1 4) sample_sleepers)
    × ((r.tasks 4).state ≡ TaskState.sleep)
block_current-queues_example =
    block_current-queues TaskState.sleep 4 100 sample sample_queues sample_sleepers
      sample-IsReadyQueues sample-Sleepers (omega arith) (omega arith)
