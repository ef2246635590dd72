-- ===== src/Vm/Safety/Run.antt =====
-- The loop of the bytecode machine (src/services/halaos_tasks.c) on code that bytecode_verify
-- (src/services/halaos_runtime.c) has accepted.
use halaos_stm32f103_hardwar.Prelude.{
  if-cases, ℕ, zero, suc, refl, Bool, Option, arith, leb, inl, inr,
}
use halaos_stm32f103_hardwar.Bytecode.{kind_at}
use halaos_stm32f103_hardwar.Bytecode.Verified.{IsVerified}
use halaos_stm32f103_hardwar.Vm.{Machine, Outcome, step, run}
use halaos_stm32f103_hardwar.Vm.Safety.{IsSafe, Safe}
use halaos_stm32f103_hardwar.Vm.{go_on}
use halaos_stm32f103_hardwar.Vm.Task.{reset}
use halaos_stm32f103_hardwar.Vm.Safety.Execute.{execute-Safe}

module _ (code : ℕ → ℕ) (size : ℕ) (depth : ℕ → Option ℕ) (v : IsVerified code size depth) where
  step-Safe :
      (gpio : Machine → Bool) (m : Machine)
      → IsSafe code size depth m
      → Safe code size depth (step code size gpio m)
  unfolding step
  step-Safe gpio m s =
      if-cases (Safe code size depth) (leb size m.pc) _ _ (λ t. ground arith)
        λ inside. elim s.at [
          | inl over ↦ absurd (ground arith)
          | inr (d, found, deep) ↦
              execute-Safe code size depth v gpio m.pc d _ (kind_at code size m.pc) (record {
                kind_of = refl;
                found = found;
                here = deep;
                next = refl;
                frames = s.frames;
                sp_low = s.sp_low;
                fp_low = s.fp_low;
                bases = s.bases;
              })
        ]

  go_on-Safe :
      (f : Machine → Outcome) (o : Outcome)
      → ((m : Machine) → IsSafe code size depth m → Safe code size depth (f m))
      → Safe code size depth o
      → Safe code size depth (go_on f o)
  unfolding go_on
  go_on-Safe f (Outcome.go m) after s = after m s
  go_on-Safe f (Outcome.trap r m) after s = s
  go_on-Safe f (Outcome.sleep ms m) after s = s
  go_on-Safe f (Outcome.complete m) after s = s

  pub run-Safe :
      (gpio : Machine → Bool) (budget : ℕ) (m : Machine)
      → IsSafe code size depth m
      → Safe code size depth (run code size gpio budget m)
  unfolding run
  run-Safe gpio zero m s = s
  run-Safe gpio (suc n) m s =
      go_on-Safe (run code size gpio n) (step code size gpio m) (run-Safe gpio n)
        (step-Safe gpio m s)

  pub reset-IsSafe : (m : Machine) → IsSafe code size depth (reset m)
  reset-IsSafe m = record {
    at = inr (0, v.entry, refl);
    frames = λ n lt. absurd (ground arith);
    sp_low = ground arith;
    fp_low = ground arith;
    bases = λ n lt. absurd (ground arith);
  }
