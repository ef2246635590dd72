-- ===== src/Vm/Task.antt =====
-- The task of the bytecode machine, task_vm of src/services/halaos_tasks.c, with vm_trap and
-- vm_complete.
use halaos_stm32f103_hardwar.Prelude.{
  ℕ, Bool, true, false, not, ◌||◌, Option, some, List, [], ◌∷◌, ◌==◌, if◌then◌else◌,
}
use halaos_stm32f103_hardwar.Vm.{Trap, Machine, Outcome, run}

-- The status of an application that traps.
unfoldable pub trap_status : Trap → ℕ
trap_status Trap.divide_by_zero = 136
trap_status _ = 126

-- The state of a new application: the operands are not cleared.
abbrev pub reset : Machine → Machine
reset m = record m { pc = 0; sp = 0; fp = 0; locals = λ i. 0 }

-- The task: its machine and active_sequence, with g_app_running, g_app_exit_status and the reason
-- that vm_trap has printed last.
pub record VmTask : Type 0 where
  pub machine : Machine
  pub active_sequence : ℕ
  pub app_running : Bool
  pub app_exit_status : ℕ
  pub trap_reason : Option Trap

-- What the task does at the end of a round: it is blocked, or it yields, after a sleep in the case
-- of SLEEP.
pub data Rest : Type 0 where
  block : Rest
  yield : Rest
  doze : ℕ → Rest

unfoldable pub vm_trap : Trap → VmTask → VmTask
vm_trap reason t =
    if t.app_running
    then record t {
      app_exit_status = trap_status reason;
      app_running = false;
      trap_reason = some reason;
    }
    else t

unfoldable pub vm_complete : VmTask → VmTask
vm_complete t = if t.app_running then record t { app_exit_status = 0; app_running = false } else t

unfoldable pub finish : VmTask → Outcome → VmTask × Rest
finish t (Outcome.go m) = (record t { machine = m }, Rest.yield)
finish t (Outcome.trap r m) = (vm_trap r (record t { machine = m }), Rest.yield)
finish t (Outcome.sleep ms m) = (record t { machine = m }, Rest.doze ms)
finish t (Outcome.complete m) = (vm_complete (record t { machine = m }), Rest.yield)

abbrev pub batch : ℕ
batch = 64

-- A round of the endless loop. `runnable` is `g_app_valid`, app_verify_slot of the slot, and the
-- type of bytecode; `sequence` stands in the header of the application.
unfoldable pub vm_round : (ℕ → ℕ) → ℕ → (Machine → Bool) → Bool → ℕ → VmTask → VmTask × Rest
vm_round code size gpio runnable sequence t =
    let m = if t.active_sequence == sequence then t.machine else reset t.machine in
    if not t.app_running || not runnable
    then (record t { machine = reset t.machine; active_sequence = 0 }, Rest.block)
    else finish (record t { active_sequence = sequence }) (run code size gpio batch m)

-- Rounds on their own, each with its GPIO results.
unfoldable pub vm_rounds : (ℕ → ℕ) → ℕ → ℕ → List (Machine → Bool) → VmTask → VmTask
vm_rounds code size sequence [] t = t
vm_rounds code size sequence (gpio ∷ rest) t =
    vm_rounds code size sequence rest (vm_round code size gpio true sequence t).0
