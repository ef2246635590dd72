-- ===== src/Vm/Safety/Execute.antt =====
-- Each instruction of verified code on the bytecode machine (src/services/halaos_tasks.c).
use halaos_stm32f103_hardwar.Prelude.{ℕ, ◌-◌, arith, Bool, Option}
use halaos_stm32f103_hardwar.Bytecode.{Kind, fits}
use halaos_stm32f103_hardwar.Bytecode.Verified.{IsVerified}
use halaos_stm32f103_hardwar.Vm.{Machine, execute}
use halaos_stm32f103_hardwar.Vm.Safety.{Safe, IsFetched}
use halaos_stm32f103_hardwar.Vm.Safety.Stack.{
  push-Safe, load_local-Safe, store_local-Safe, binary-Safe, gpio-Safe, print_int-Safe, pop-Safe,
  write-Safe, halt-Safe,
}
use halaos_stm32f103_hardwar.Vm.Safety.Causes.{kind-special, code_before}
use halaos_stm32f103_hardwar.Vm.Safety.Moves.{fits-fetched}
use halaos_stm32f103_hardwar.Vm.Safety.Jumps.{call-Safe, ret-Safe, jmp-Safe, jz-Safe, sleep-Safe}

module _ (code : ℕ → ℕ) (size : ℕ) (depth : ℕ → Option ℕ) (v : IsVerified code size depth)
    (gpio : Machine → Bool) where
  pub execute-Safe :
      (at d : ℕ) (m : Machine) (k : Kind)
      → IsFetched code size depth at d k m
      → Safe code size depth (execute code size gpio k at m)
  unfolding execute fits
  execute-Safe at d m Kind.push f = push-Safe code size depth v gpio at d m f
  execute-Safe at d m Kind.load_local f = load_local-Safe code size depth v gpio at d m f
  execute-Safe at d m Kind.store_local f = store_local-Safe code size depth v gpio at d m f
  execute-Safe at d m Kind.binary f = binary-Safe code size depth v gpio at d m f
  execute-Safe at d m Kind.call f = call-Safe code size depth v gpio at d m f
  execute-Safe at d m Kind.ret f = ret-Safe code size depth v gpio at d m f
  execute-Safe at d m Kind.gpio f = gpio-Safe code size depth v gpio at d m f
  execute-Safe at d m Kind.sleep f = sleep-Safe code size depth v gpio at d m f
  execute-Safe at d m Kind.jmp f = jmp-Safe code size depth v gpio at d m f
  execute-Safe at d m Kind.jz f = jz-Safe code size depth v gpio at d m f
  execute-Safe at d m Kind.print_int f = print_int-Safe code size depth v gpio at d m f
  execute-Safe at d m Kind.pop f = pop-Safe code size depth v gpio at d m f
  execute-Safe at d m Kind.write f = write-Safe code size depth v gpio at d m f
  execute-Safe at d m Kind.halt f = halt-Safe code size depth v gpio at d m f
  execute-Safe at d m Kind.special f =
      kind-special (code (m.pc - 1)) (code_before code size depth at d Kind.special m f)
  execute-Safe at d m Kind.invalid f =
      let ok = fits-fetched code size depth v at d Kind.invalid m f in absurd (ground arith)
