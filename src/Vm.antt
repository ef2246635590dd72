-- ===== src/Vm.antt =====
-- The bytecode machine of task_vm (src/services/halaos_tasks.c): one instruction, and the batch of
-- instructions that the task runs before it yields.
pub mod Safety
pub mod Arith
pub mod Task
mod Tests
use halaos_stm32f103_hardwar.Prelude.{
  ℕ, zero, suc, ◌+◌, ◌-◌, ◌*◌, ◌/◌, ◌%◌, Bool, true, false, not, ◌&&◌, ◌||◌, Option, none, some,
  List, [], ◌∷◌, ◌++◌, ◌==◌, ltb, leb, if◌then◌else◌, update, inc32, add32, sub32, u32_mod, u8_mod,
}
use halaos_stm32f103_hardwar.Bytecode.{Kind, kind_at, target}
use halaos_stm32f103_hardwar.Vm.Arith.{binary_op}

-- The reasons that vm_trap is given.
pub data Trap : Type 0 where
  pc_out_of_range push load_local store_local binary_stack divide_by_zero call_frame call_target
        return_frame gpio_access sleep_operand jump_operand jump_target branch_stack branch_target
        print_stack pop_stack write_length write_data invalid_opcode :
      Trap

-- What the machine prints.
pub data Output : Type 0 where
  number : ℕ → Output
  bytes : List ℕ → Output

-- The variables of task_vm; an i32 is the u32 of the same bits.
pub record Machine : Type 0 where
  pub operand : ℕ → ℕ
  pub locals : ℕ → ℕ
  pub saved_locals : ℕ → ℕ → ℕ
  pub return_pc : ℕ → ℕ
  pub base_sp : ℕ → ℕ
  pub sp : ℕ
  pub fp : ℕ
  pub pc : ℕ
  pub vm_steps : ℕ
  pub output : List Output

-- How an instruction ends: on with the next one, or out of the batch.
pub data Outcome : Type 0 where
  go : Machine → Outcome
  trap : Trap → Machine → Outcome
  sleep : ℕ → Machine → Outcome
  complete : Machine → Outcome

unfoldable pub go_on : (Machine → Outcome) → Outcome → Outcome
go_on f (Outcome.go m) = f m
go_on f (Outcome.trap r m) = Outcome.trap r m
go_on f (Outcome.sleep ms m) = Outcome.sleep ms m
go_on f (Outcome.complete m) = Outcome.complete m

abbrev pub push_operand : ℕ → Machine → Machine
push_operand v m = record m { operand = update m.operand m.sp v; sp = m.sp + 1 }

-- `operand[--sp]`
abbrev pub top : Machine → ℕ
top m = m.operand (m.sp - 1)

abbrev pub drop_operand : Machine → Machine
drop_operand m = record m { sp = m.sp - 1 }

abbrev pub goto : ℕ → Machine → Machine
goto pc m = record m { pc = pc }

abbrev pub say : Output → Machine → Machine
say o m = record m { output = m.output ++ o ∷ [] }

abbrev pub enter_frame : ℕ → ℕ → Machine → Machine
enter_frame at return m = record m {
  return_pc = update m.return_pc m.fp return;
  base_sp = update m.base_sp m.fp m.sp;
  saved_locals = update m.saved_locals m.fp m.locals;
  fp = m.fp + 1;
  locals = λ i. 0;
  pc = at;
}

abbrev pub leave_frame : Machine → Machine
leave_frame m = record m {
  operand = update m.operand (m.sp - 1) (top m);
  fp = m.fp - 1;
  locals = m.saved_locals (m.fp - 1);
  pc = m.return_pc (m.fp - 1);
}

-- The bytes from `at` on.
pub bytes_from : (ℕ → ℕ) → ℕ → ℕ → List ℕ
bytes_from code zero at = []
bytes_from code (suc n) at = code at ∷ bytes_from code n (at + 1)

-- The end of the line that WRITE adds, unless the last of the bytes is one.
unfoldable pub line_end : ℕ → ℕ → List ℕ
line_end length last = if (length == 0) || not (last == 10) then 13 ∷ 10 ∷ [] else []

abbrev pub max_operands : ℕ
max_operands = 16

abbrev pub max_frames : ℕ
max_frames = 4

-- `gpio` tells whether the GPIO system call returns 0. The waits for the shell to finish a line,
-- before something is printed, are left out.
module _ (code : ℕ → ℕ) (size : ℕ) (gpio : Machine → Bool) where
  -- The branch of task_vm on the instruction at `at`, behind `pc++`.
  unfoldable pub execute : Kind → ℕ → Machine → Outcome
  execute Kind.push at m =
      if ltb size (at + 5) || leb max_operands m.sp
      then trap Trap.push m
      else go (
          goto (at + 5) (
            push_operand
              (code (at + 1)
                + code (at + 2) * 256
                + code (at + 3) * 65536
                + code (at + 4) * 16777216)
              m))
  execute Kind.load_local at m =
      if leb size (at + 1) || (leb 8 (code (at + 1)) || leb max_operands m.sp)
      then trap Trap.load_local m
      else go (goto (at + 2) (push_operand (m.locals (code (at + 1))) m))
  execute Kind.store_local at m =
      if leb size (at + 1) || (leb 8 (code (at + 1)) || (m.sp == 0))
      then trap Trap.store_local m
      else go (
          goto (at + 2)
            (drop_operand (record m { locals = update m.locals (code (at + 1)) (top m) })))
  execute Kind.binary at m =
      let right = top m in
      let m' = drop_operand (drop_operand m) in
      let left = m.operand (m.sp - 2) in
      if ltb m.sp 2
      then trap Trap.binary_stack m
      else if (code at == 7) && (right == 0)
      then trap Trap.divide_by_zero m'
      else go (push_operand (binary_op (code at) left right) m')
  execute Kind.call at m =
      if ltb size (at + 3) || leb max_frames m.fp
      then trap Trap.call_frame m
      else if leb size (target code size at)
      then trap Trap.call_target (goto (at + 3) m)
      else go (enter_frame (target code size at) (at + 3) m)
  execute Kind.ret at m =
      if (m.fp == 0) || not (m.sp == (m.base_sp (m.fp - 1) + 1) % u8_mod)
      then trap Trap.return_frame m
      else go (leave_frame m)
  execute Kind.gpio at m = if gpio m then go m else trap Trap.gpio_access m
  execute Kind.sleep at m =
      if ltb size (at + 3)
      then trap Trap.sleep_operand m
      else sleep (target code size at) (goto (at + 3) m)
  execute Kind.jmp at m =
      if ltb size (at + 3)
      then trap Trap.jump_operand m
      else if leb size (target code size at)
      then trap Trap.jump_target m
      else go (goto (target code size at) m)
  execute Kind.jz at m =
      let m' = drop_operand (goto (at + 3) m) in
      if ltb size (at + 3) || (m.sp == 0)
      then trap Trap.branch_stack m
      else if not (top m == 0)
      then go m'
      else if leb size (target code size at)
      then trap Trap.branch_target m'
      else go (goto (target code size at) m')
  execute Kind.print_int at m =
      if m.sp == 0
      then trap Trap.print_stack m
      else go (say (Output.number (top m)) (drop_operand m))
  execute Kind.pop at m = if m.sp == 0 then trap Trap.pop_stack m else go (drop_operand m)
  execute Kind.write at m =
      let length = code (at + 1) in
      if leb size (at + 1)
      then trap Trap.write_length m
      else if ltb size (at + 2 + length)
      then trap Trap.write_data (goto (at + 2) m)
      else go (
          say
            (Output.bytes
              (bytes_from code length (at + 2) ++ line_end length (code (at + 1 + length))))
            (goto (at + 2 + length) m))
  execute Kind.halt at m = complete m
  execute Kind.special at m = trap Trap.invalid_opcode m
  execute Kind.invalid at m = trap Trap.invalid_opcode m

  -- The body of the loop over the budget.
  unfoldable pub step : Machine → Outcome
  step m =
      let fetched = record m { pc = m.pc + 1; vm_steps = inc32 m.vm_steps } in
      if leb size m.pc
      then trap Trap.pc_out_of_range m
      else execute (kind_at code size m.pc) m.pc fetched

  -- The loop, which goes on while the instructions do. A trap or HALT ends the application.
  unfoldable pub run : ℕ → Machine → Outcome
  run zero m = go m
  run (suc budget) m = go_on (run budget) (step m)
