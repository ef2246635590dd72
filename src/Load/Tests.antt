-- ===== src/Load/Tests.antt =====
-- The load generator on the sample state.
use halaos_stm32f103_hardwar.Prelude.{◌≡◌, refl, [], ◌∷◌}
use halaos_stm32f103_hardwar.Kernel.{is_rt_policy}
use halaos_stm32f103_hardwar.Load.{load_enable}
use halaos_stm32f103_hardwar.Load.Quiet.{all_off}
use halaos_stm32f103_hardwar.Load.Enable.{Loaded}
use halaos_stm32f103_hardwar.Load.Modes.{load_lists, runs_in, load_enable-Loaded}
use halaos_stm32f103_hardwar.Samples.{sample}
use halaos_stm32f103_hardwar.Samples.Queues.{sample_queues, sample-IsReadyQueues}

rr_mode_queue : load_lists 1 sample sample_queues 6 ≡ 4 ∷ 5 ∷ []
unfolding all_off is_rt_policy
rr_mode_queue = refl

fair_mode_queue : load_lists 2 sample sample_queues 6 ≡ []
unfolding all_off is_rt_policy
fair_mode_queue = refl

fifo_mode_queue : load_lists 6 sample sample_queues 6 ≡ 6 ∷ []
unfolding all_off is_rt_policy
fifo_mode_queue = refl

load_enable-Loaded_example :
    Loaded sample (load_enable 4 sample) (load_lists 4 sample sample_queues) (runs_in 4)
unfolding is_rt_policy
load_enable-Loaded_example =
    load_enable-Loaded 4 sample sample_queues sample-IsReadyQueues refl refl refl
