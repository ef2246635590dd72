-- ===== src/Bytecode.antt =====
-- The bytecode of applications and its verifier, bytecode_verify of
-- src/services/halaos_runtime.c; the opcodes are those of
-- include/halaos/internal/halaos_internal.h.
pub mod Flow
pub mod Fuel
pub mod Local
pub mod Reads
pub mod Refused
pub mod Reject
pub mod Seed
pub mod Verified
pub mod Walk
pub mod Work
mod Tests
use halaos_stm32f103_hardwar.Prelude.{
  ℕ, zero, suc, ◌+◌, ◌-◌, ◌*◌, Bool, true, false, not, ◌&&◌, ◌||◌, Option, none, some, List, [],
  ◌∷◌, ◌++◌, ◌==◌, ltb, leb, if◌then◌else◌, update, inc32,
}

-- HBC_*; `binary` stands for HBC_ADD to HBC_NE, and `special` for 0x30 to 0x35, the codes of the
-- built-in demonstrations.
pub data Kind : Type 0 where
  push load_local store_local binary call ret gpio sleep jmp jz print_int pop write halt special
        invalid :
      Kind

-- The tests on an opcode, which the walks below and the machine have written out each.
unfoldable pub kind : ℕ → Kind
kind op =
    if op == 0x01
    then Kind.push
    else if op == 0x02
    then Kind.load_local
    else if op == 0x03
    then Kind.store_local
    else if leb 0x04 op && leb op 0x0D
    then Kind.binary
    else if op == 0x0E
    then Kind.call
    else if op == 0x0F
    then Kind.ret
    else if op == 0x10
    then Kind.gpio
    else if op == 0x11
    then Kind.sleep
    else if op == 0x12
    then Kind.jmp
    else if op == 0x13
    then Kind.jz
    else if op == 0x14
    then Kind.print_int
    else if op == 0x15
    then Kind.pop
    else if op == 0x20
    then Kind.write
    else if op == 0xFF
    then Kind.halt
    else if leb 0x30 op && leb op 0x35
    then Kind.special
    else Kind.invalid

unfoldable pub is_branch : Kind → Bool
is_branch Kind.jmp = true
is_branch Kind.jz = true
is_branch _ = false

unfoldable pub is_call : Kind → Bool
is_call Kind.call = true
is_call _ = false

-- The instructions whose target is checked.
abbrev pub has_target : Kind → Bool
has_target k = is_call k || is_branch k

unfoldable pub falls_through : Kind → Bool
falls_through Kind.ret = false
falls_through Kind.jmp = false
falls_through Kind.halt = false
falls_through _ = true

-- The depth of the operand stack behind an instruction; `none` is `goto reject`.
unfoldable pub effect : Kind → ℕ → Option ℕ
effect Kind.push d = some (d + 1)
effect Kind.load_local d = some (d + 1)
effect Kind.store_local d = if ltb d 1 then none else some (d - 1)
effect Kind.binary d = if ltb d 2 then none else some (d - 1)
effect Kind.call d = some (d + 1)
effect Kind.ret d = if d == 1 then some d else none
effect Kind.jz d = if ltb d 1 then none else some (d - 1)
effect Kind.print_int d = if ltb d 1 then none else some (d - 1)
effect Kind.pop d = if ltb d 1 then none else some (d - 1)
effect _ d = some d

abbrev pub max_code : ℕ
max_code = 256

abbrev pub max_depth : ℕ
max_depth = 16

-- The depths found so far (`none` for -1), and queue[queue_head] to queue[queue_tail - 1].
pub record Analysis : Type 0 where
  pub depth : ℕ → Option ℕ
  pub pending : List ℕ

-- `if (depth[at] < 0) { depth[at] = stack; queue[queue_tail++] = at; }
-- else if (depth[at] != stack) goto reject;`
unfoldable pub offer : ℕ → ℕ → Analysis → Option Analysis
offer at stack a = elim (a.depth at) [
  | none ↦ some (record { depth = update a.depth at (some stack); pending = a.pending ++ at ∷ [] })
  | some d ↦ if d == stack then some a else none
]

-- `depth[0] = 0; queue[queue_tail++] = 0;`
abbrev pub entry : Analysis
entry = record { depth = update (λ i. none) 0 (some 0); pending = 0 ∷ [] }

-- The third walk: functions start with an empty stack.
unfoldable pub seed : ℕ → Analysis → Analysis
seed at a = elim (a.depth at) [
  | none ↦ record { depth = update a.depth at (some 0); pending = a.pending ++ at ∷ [] }
  | some d ↦ a
]

-- The code is an array of bytes.
module _ (code : ℕ → ℕ) (size : ℕ) where
  abbrev pub kind_at : ℕ → Kind
  kind_at at = kind (code at)

  -- `(u16)code[pc] | ((u16)code[pc + 1u] << 8)` for the operand of the instruction at `at`.
  abbrev pub target : ℕ → ℕ
  target at = code (at + 1) + code (at + 2) * 256

  unfoldable pub operand_size : Kind → ℕ → ℕ
  operand_size Kind.push at = 4
  operand_size Kind.load_local at = 1
  operand_size Kind.store_local at = 1
  operand_size Kind.call at = 2
  operand_size Kind.sleep at = 2
  operand_size Kind.jmp at = 2
  operand_size Kind.jz at = 2
  operand_size Kind.write at = 1 + code (at + 1)
  operand_size _ at = 0

  abbrev pub next_at : ℕ → ℕ
  next_at at = at + 1 + operand_size (kind_at at) at

  -- The checks of the first walk on the instruction at `at`.
  unfoldable pub fits : Kind → ℕ → Bool
  fits Kind.push at = leb (at + 5) size
  fits Kind.load_local at = ltb (at + 1) size && ltb (code (at + 1)) 8
  fits Kind.store_local at = ltb (at + 1) size && ltb (code (at + 1)) 8
  fits Kind.call at = leb (at + 3) size
  fits Kind.sleep at = leb (at + 3) size
  fits Kind.jmp at = leb (at + 3) size
  fits Kind.jz at = leb (at + 3) size
  fits Kind.write at = ltb (at + 1) size && leb (at + 2 + code (at + 1)) size
  fits Kind.invalid at = false
  fits _ at = true

  -- The first walk: the starts of the instructions from `pc` on. Each round moves on, so that the
  -- fuel `size - pc + 1` is enough; `none` is `goto reject`.
  unfoldable pub mark_loop : ℕ → ℕ → (ℕ → Bool) → Option (ℕ → Bool)
  mark_loop zero pc boundary = none
  mark_loop (suc fuel) pc boundary =
      let rest = mark_loop fuel (next_at pc) (update boundary pc true) in
      if leb size pc then some boundary else if fits (kind_at pc) pc then rest else none

  -- The second walk: every target is the start of an instruction.
  unfoldable pub check_targets : ℕ → ℕ → (ℕ → Bool) → Bool
  check_targets zero pc boundary = false
  check_targets (suc fuel) pc boundary =
      let rest = check_targets fuel (next_at pc) boundary in
      if leb size pc
      then true
      else if has_target (kind_at pc) && (leb size (target pc) || not (boundary (target pc)))
      then false
      else rest

  -- The walk that starts them.
  unfoldable pub seed_loop : ℕ → ℕ → Analysis → Analysis
  seed_loop zero pc a = a
  seed_loop (suc fuel) pc a =
      let a' = if is_call (kind_at pc) then seed (target pc) a else a in
      let rest = seed_loop fuel (next_at pc) a' in if leb size pc then a else rest

  -- The two offers at the end of a round of the last loop.
  unfoldable pub offer_branch : ℕ → ℕ → Analysis → Option Analysis
  offer_branch at stack a = if is_branch (kind_at at) then offer (target at) stack a else some a

  unfoldable pub offer_next : ℕ → ℕ → Analysis → Option Analysis
  offer_next at stack a =
      if falls_through (kind_at at) && ltb (next_at at) size
      then offer (next_at at) stack a
      else some a

  unfoldable pub offer_both : ℕ → ℕ → Analysis → Option Analysis
  offer_both at stack a = elim (offer_branch at stack a) [
    | none ↦ none
    | some a' ↦ offer_next at stack a'
  ]

  -- A round of the last loop on a position of the queue, whose depth is `stack`.
  unfoldable pub visit_with : ℕ → ℕ → Analysis → Option Analysis
  visit_with at stack a = elim (effect (kind_at at) stack) [
    | none ↦ none
    | some stack' ↦ if ltb max_depth stack' then none else offer_both at stack' a
  ]

  -- Every position of the queue has a depth.
  unfoldable pub visit : ℕ → Analysis → Option Analysis
  visit at a = elim (a.depth at) [ none ↦ none | some stack ↦ visit_with at stack a ]

  -- Each position enters the queue once, so that `size + 1` rounds are enough.
  unfoldable pub work_loop : ℕ → Analysis → Option (ℕ → Option ℕ)
  work_loop zero a = none
  work_loop (suc fuel) a = elim a.pending [
    | [] ↦ some a.depth
    | at ∷ rest ↦ elim (visit at (record a { pending = rest })) [
      | none ↦ none
      | some a' ↦ work_loop fuel a'
    ]
  ]

  -- The walks behind the first, on some fuel.
  unfoldable pub flow_with : ℕ → (ℕ → Bool) → Option (ℕ → Option ℕ)
  flow_with fuel boundary =
      if check_targets fuel 0 boundary then work_loop fuel (seed_loop fuel 0 entry) else none

  -- bytecode_verify behind its first test: the depths, or `goto reject`.
  unfoldable pub analyse_with : ℕ → Option (ℕ → Option ℕ)
  analyse_with fuel = elim (mark_loop fuel 0 (λ i. false)) [
    | none ↦ none
    | some boundary ↦ flow_with fuel boundary
  ]

  abbrev pub analyse : Option (ℕ → Option ℕ)
  analyse = analyse_with (size + 1)

  -- `code` is not NULL. The second component is g_bytecode_rejects.
  unfoldable pub bytecode_verify : ℕ → Bool × ℕ
  bytecode_verify rejects =
      if (size == 0) || ltb max_code size
      then (false, rejects)
      else elim analyse [ none ↦ (false, inc32 rejects) | some depth ↦ (true, rejects) ]
