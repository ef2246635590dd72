-- ===== src/Ready/Tests.antt =====
-- The ready queues on the sample state.
use halaos_stm32f103_hardwar.Prelude.{◌≡◌, ◌⊎◌, refl, ◌∷◌, [], ◌++◌, arith, update, without}
use halaos_stm32f103_hardwar.Chain.{invalid_idx}
use halaos_stm32f103_hardwar.Samples.{sample}
use halaos_stm32f103_hardwar.Samples.Queues.{sample_queues, sample-IsReadyQueues}
use halaos_stm32f103_hardwar.Ready.{level, rt_enqueue, rt_remove, rt_rotate, highest_rt}
use halaos_stm32f103_hardwar.Ready.Invariant.{IsReadyQueues}
use halaos_stm32f103_hardwar.Ready.Enqueue.{rt_enqueue-append}
use halaos_stm32f103_hardwar.Ready.Remove.{rt_remove-without}
use halaos_stm32f103_hardwar.Ready.Rotate.{rotate, rt_rotate-rotate}
use halaos_stm32f103_hardwar.Ready.Highest.{IsTop, AllEmpty, highest_rt-IsTop}

rt_enqueue-append_example : IsReadyQueues (rt_enqueue 6 sample) (
    update sample_queues
      (level (sample.tasks 6))
      (sample_queues (level (sample.tasks 6)) ++ 6 ∷ []))
rt_enqueue-append_example =
    rt_enqueue-append 6 sample sample_queues sample-IsReadyQueues (omega arith) refl

rt_remove-without_example : IsReadyQueues (rt_remove 4 sample) (
    update sample_queues
      (level (sample.tasks 4))
      (without 4 (sample_queues (level (sample.tasks 4)))))
rt_remove-without_example = rt_remove-without 4 sample sample_queues sample-IsReadyQueues

rt_rotate-rotate_example :
    IsReadyQueues (rt_rotate 6 sample) (update sample_queues 6 (rotate (sample_queues 6)))
rt_rotate-rotate_example = rt_rotate-rotate 6 sample sample_queues sample-IsReadyQueues

highest_rt-IsTop_example :
    ((highest_rt sample ≡ invalid_idx) × AllEmpty sample_queues 0)
    ⊎ IsTop sample_queues 0 (highest_rt sample)
highest_rt-IsTop_example = highest_rt-IsTop sample sample_queues sample-IsReadyQueues
