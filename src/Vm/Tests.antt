-- ===== src/Vm/Tests.antt =====
-- Runs of the bytecode machine (src/services/halaos_tasks.c).
use halaos_stm32f103_hardwar.Prelude.{
  ℕ, List, ◌++◌, Bool, true, ◌≡◌, ◌≤◌, refl, [], ◌∷◌, none, some, arith,
}
use halaos_stm32f103_hardwar.Samples.Code.{byte_at, call_code}
use halaos_stm32f103_hardwar.Bytecode.{
  bytecode_verify, analyse_with, flow_with, mark_loop, check_targets, seed_loop, work_loop, visit,
  visit_with, offer, offer_both, offer_branch, offer_next, seed, effect, fits, falls_through,
  is_branch, is_call, operand_size, kind,
}
use halaos_stm32f103_hardwar.Vm.{
  Trap, Machine, Output, execute, step, run, go_on, line_end, max_operands, max_frames, bytes_from,
}
use halaos_stm32f103_hardwar.Vm.Task.{
  VmTask, finish, vm_trap, vm_complete, vm_round, vm_rounds, trap_status,
}
use halaos_stm32f103_hardwar.Vm.Arith.{signed_div}
use halaos_stm32f103_hardwar.Vm.Safety.{CausedBy}
use halaos_stm32f103_hardwar.Vm.Safety.Task.{vm_rounds_safe}

-- The machine of an earlier application, and the task when the next one has been started.
abbrev old_machine : Machine
old_machine = record {
  operand = λ i. 0;
  locals = λ i. 0;
  saved_locals = λ i j. 0;
  return_pc = λ i. 0;
  base_sp = λ i. 0;
  sp = 3;
  fp = 1;
  pc = 40;
  vm_steps = 100;
  output = [];
}

abbrev started : VmTask
started = record {
  machine = old_machine;
  active_sequence = 6;
  app_running = true;
  app_exit_status = 126;
  trap_reason = none;
}

abbrev gpio_ok : Machine → Bool
gpio_ok m = true

prints_result :
    (vm_rounds call_code 11 7 (gpio_ok ∷ []) started).machine.output ≡ Output.number 5 ∷ []
unfolding vm_rounds vm_round finish run go_on step execute kind vm_complete
prints_result = refl

-- 1 / 0.
divides_by_zero :
    (vm_rounds
      (byte_at (1 ∷ 1 ∷ 0 ∷ 0 ∷ 0 ∷ 1 ∷ 0 ∷ 0 ∷ 0 ∷ 0 ∷ 7 ∷ []))
      11
      7
      (gpio_ok ∷ [])
      started).app_exit_status
    ≡ 136
unfolding vm_rounds vm_round finish run go_on step execute kind vm_trap trap_status
divides_by_zero = refl

writes_line :
    (vm_rounds
      (byte_at (0x20 ∷ 2 ∷ 0x68 ∷ 0x69 ∷ 0xFF ∷ []))
      5
      7
      (gpio_ok ∷ [])
      started).machine.output
    ≡ Output.bytes (0x68 ∷ 0x69 ∷ 13 ∷ 10 ∷ []) ∷ []
unfolding vm_rounds vm_round finish run go_on step execute kind bytes_from line_end vm_complete
writes_line = refl

-- 7 / -2, and the quotient that overflows.
quotients : (signed_div 7 0xFFFFFFFE ≡ 0xFFFFFFFD) × (signed_div 0x80000000 0xFFFFFFFF ≡ 0x80000000)
unfolding signed_div
quotients = (refl, refl)

-- A return outside of any call, after one round, and two idle ones.
abbrev stray_return : List ℕ
stray_return = 1 ∷ 5 ∷ 0 ∷ 0 ∷ 0 ∷ 0x0F ∷ []

stray_return_traps :
    (vm_rounds (byte_at stray_return) 6 7 (gpio_ok ∷ gpio_ok ∷ []) started).trap_reason
    ≡ some Trap.return_frame
unfolding vm_rounds vm_round finish run go_on step execute kind vm_trap
stray_return_traps = refl

stray_return_verified : (bytecode_verify (byte_at stray_return) 6 0).0 ≡ true
unfolding bytecode_verify analyse_with flow_with mark_loop check_targets seed_loop work_loop visit
    visit_with offer offer_both offer_branch offer_next seed effect fits falls_through is_branch
    is_call operand_size kind
stray_return_verified = refl

vm_rounds_safe_example :
    let gpios = gpio_ok ∷ gpio_ok ∷ [] in
    let code = byte_at stray_return in
    let t = vm_rounds code 6 7 gpios started in
    ((r : Trap)
      → t.trap_reason ≡ some r
      → (first : List (Machine → Bool)) × (later : List (Machine → Bool)) × (gpios ≡ first ++ later)
        × ((vm_rounds code 6 7 first started).trap_reason ≡ some r)
        × CausedBy code 6 r (vm_rounds code 6 7 first started).machine)
    × (t.app_running ≡ true
        → t.active_sequence ≡ 7
        → (t.machine.sp ≤ max_operands) × (t.machine.fp ≤ max_frames))
vm_rounds_safe_example =
    vm_rounds_safe (byte_at stray_return) 6 0 7 (gpio_ok ∷ gpio_ok ∷ []) started
      stray_return_verified (λ same. absurd (ground arith)) refl
