-- ===== src/Pool/Tests.antt =====
-- The pool of process slots, with slot 0 in use.
use halaos_stm32f103_hardwar.Prelude.{◌≡◌, refl, true, update, arith, some}
use halaos_stm32f103_hardwar.Pool.{Pool, StressResult, zero_slot, find_free, proc_stress}
use halaos_stm32f103_hardwar.Pool.Stress.{IsClean, Rounds, proc_stress-Rounds}

abbrev one_used : Pool
one_used = record {
  slots = update (λ i. zero_slot) 0 (record zero_slot { used = true; handles = 2 });
  spawns = 1;
  reaps = 4294967295;
  leaks = 0;
}

one_used-IsClean : IsClean one_used
one_used-IsClean i free = ground arith

first_free : find_free 4 0 one_used.slots ≡ some 1
unfolding find_free
first_free = refl

proc_stress-Rounds_example :
    ((proc_stress 3 one_used).1 ≡ StressResult.passed)
    × Rounds 3 1 one_used (proc_stress 3 one_used).0
proc_stress-Rounds_example =
    proc_stress-Rounds 3 1 one_used (omega arith) (omega arith) one_used-IsClean first_free
