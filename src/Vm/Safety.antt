-- ===== src/Vm/Safety.antt =====
-- Verified code on the bytecode machine of src/services/halaos_tasks.c: the depth of the operand
-- stack is the one that the verifier found, so that most of the machine's traps cannot happen.
pub mod Moves
pub mod Causes
pub mod Execute
pub mod Jumps
pub mod Stack
pub mod Run
pub mod Task
use halaos_stm32f103_hardwar.Prelude.{
  ℕ, zero, suc, ◌+◌, ◌-◌, ◌*◌, ◌%◌, ◌≤◌, ◌<◌, ◌≡◌, ◌⊎◌, refl, sym, subst, ap, ◌∙◌, Bool, true,
  false, not, ◌&&◌, ◌||◌, Option, none, some, List, [], ◌∷◌, ◌++◌, arith, ◌==◌, ltb, leb,
  if◌then◌else◌, update, inl, inr, Bool-cases, eqb→eq, eqb_refl, inc32, u8_mod,
}
use halaos_stm32f103_hardwar.Bytecode.{
  Kind, kind_at, target, next_at, fits, effect, is_call, is_branch, falls_through, operand_size,
  max_depth,
}
use halaos_stm32f103_hardwar.Bytecode.Flow.{Agrees}
use halaos_stm32f103_hardwar.Bytecode.Verified.{IsVerified}
use halaos_stm32f103_hardwar.Vm.{
  Trap, Output, Machine, Outcome, execute, step, run, max_operands, max_frames, push_operand,
  drop_operand, goto, enter_frame, leave_frame,
}

-- The depth of the operand stack below frame `n`.
abbrev pub base : (ℕ → ℕ) → ℕ → ℕ
base bases zero = 0
base bases (suc n) = bases n

module _ (code : ℕ → ℕ) (size : ℕ) where
  -- What a trap of verified code finds, the program counter being behind the opcode: the end of
  -- the code, a full operand stack, a division by 0, a full call stack, a return from the entry, a
  -- GPIO instruction, or an opcode of the demonstrations. The other traps do not happen.
  abbrev pub CausedBy : Trap → Machine → Type 0
  CausedBy Trap.pc_out_of_range m = size ≤ m.pc
  CausedBy Trap.push m = (code (m.pc - 1) ≡ 0x01) × (max_operands ≤ m.sp)
  CausedBy Trap.load_local m = (code (m.pc - 1) ≡ 0x02) × (max_operands ≤ m.sp)
  CausedBy Trap.divide_by_zero m = (code (m.pc - 1) ≡ 0x07) × (m.operand (m.sp + 1) ≡ 0)
  CausedBy Trap.call_frame m = (code (m.pc - 1) ≡ 0x0E) × (max_frames ≤ m.fp)
  CausedBy Trap.return_frame m = (code (m.pc - 1) ≡ 0x0F) × (m.fp ≡ 0)
  CausedBy Trap.gpio_access m = code (m.pc - 1) ≡ 0x10
  CausedBy Trap.invalid_opcode m = (0x30 ≤ code (m.pc - 1)) × (code (m.pc - 1) ≤ 0x35)
  CausedBy _ m = ⊥

module _ (code : ℕ → ℕ) (size : ℕ) (depth : ℕ → Option ℕ) where
  -- At `pc` the operand stack, counted from `low`, has the depth of the analysis; or the code ends.
  abbrev pub IsAt : ℕ → ℕ → ℕ → Type 0
  IsAt pc low sp = (leb size pc ≡ true) ⊎ ((d : ℕ) × (depth pc ≡ some d) × (low + d ≡ sp))

  -- The machine is where the analysis has been, and each return leads there with its result.
  pub record IsSafe (m : Machine) : Type 0 where
    pub at : IsAt m.pc (base m.base_sp m.fp) m.sp
    pub frames : (n : ℕ) → n < m.fp → IsAt (m.return_pc n) (base m.base_sp n) (m.base_sp n + 1)
    pub sp_low : m.sp ≤ max_operands
    pub fp_low : m.fp ≤ max_frames
    pub bases : (n : ℕ) → n < m.fp → m.base_sp n ≤ max_operands

  -- What is shown of every outcome.
  abbrev pub Safe : Outcome → Type 0
  Safe (Outcome.go m) = IsSafe m
  Safe (Outcome.trap r m) = CausedBy code size r m
  Safe (Outcome.sleep ms m) = IsSafe m
  Safe (Outcome.complete m) = Unit

  -- The same, behind the fetch of an instruction at `at` that the analysis has found at depth `d`.
  pub record IsFetched (at d : ℕ) (k : Kind) (m : Machine) : Type 0 where
    pub kind_of : kind_at code size at ≡ k
    pub found : depth at ≡ some d
    pub here : base m.base_sp m.fp + d ≡ m.sp
    pub next : m.pc ≡ at + 1
    pub frames : (n : ℕ) → n < m.fp → IsAt (m.return_pc n) (base m.base_sp n) (m.base_sp n + 1)
    pub sp_low : m.sp ≤ max_operands
    pub fp_low : m.fp ≤ max_frames
    pub bases : (n : ℕ) → n < m.fp → m.base_sp n ≤ max_operands
