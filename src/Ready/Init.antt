-- ===== src/Ready/Init.antt =====
-- rt_queue_init of src/kernel/halaos_kernel.c.
use halaos_stm32f103_hardwar.Prelude.{◌≡◌, refl, true, [], arith, ltb}
use halaos_stm32f103_hardwar.Kernel.{Sched}
use halaos_stm32f103_hardwar.Ready.{rt_levels, rt_queue_init}
use halaos_stm32f103_hardwar.Ready.Invariant.{IsReadyQueues}

-- After rt_queue_init the ready queues are well formed and all empty, whatever they held before.
pub rt_queue_init-IsReadyQueues : (k : Sched) → IsReadyQueues (rt_queue_init k) (λ p. [])
unfolding rt_queue_init
rt_queue_init-IsReadyQueues k p lt =
    let low : ltb p rt_levels ≡ true = ground arith in
    record {
      chain = rw low refl;
      last = rw low refl;
      bit = refl;
      distinct = tt;
      at_level = λ x m. absurd (ground arith);
    }
