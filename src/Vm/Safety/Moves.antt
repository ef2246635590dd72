-- ===== src/Vm/Safety/Moves.antt =====
-- How the bytecode machine (src/services/halaos_tasks.c) moves on in verified code.
use halaos_stm32f103_hardwar.Prelude.{
  ℕ, zero, suc, ◌+◌, ◌-◌, ◌≤◌, ◌<◌, ◌≡◌, refl, sym, ap, ◌∙◌, true, Option, none, some, List, arith,
  ◌==◌, ltb, leb, if◌then◌else◌, update, inl, inr, Bool-cases, eqb→eq, eqb_refl,
}
use halaos_stm32f103_hardwar.Bytecode.{
  Kind, target, next_at, fits, effect, is_branch, falls_through, operand_size,
}
use halaos_stm32f103_hardwar.Bytecode.Flow.{Agrees}
use halaos_stm32f103_hardwar.Bytecode.Verified.{IsVerified}
use halaos_stm32f103_hardwar.Vm.{Output, Machine, max_operands}
use halaos_stm32f103_hardwar.Vm.Safety.{base, IsAt, IsSafe, IsFetched}

-- The frames below a call stay as they are.
pub base-update :
    (bases : ℕ → ℕ) (fp sp n : ℕ) → n ≤ fp → base (update bases fp sp) n ≡ base bases n
base-update bases fp sp zero lt = refl
base-update bases fp sp (suc n) lt = ground arith

pub base-call : (bases : ℕ → ℕ) (fp sp : ℕ) → base (update bases fp sp) (fp + 1) + 0 ≡ sp
base-call bases fp sp = ground (arith, eqb_refl fp)

module _ (code : ℕ → ℕ) (size : ℕ) (depth : ℕ → Option ℕ) (v : IsVerified code size depth) where
  pub after-effect :
      (at d x : ℕ) (k : Kind) (m : Machine)
      → IsFetched code size depth at d k m
      → (a : Agrees code size depth at d) → effect k d ≡ some x
      → a.after ≡ x
  after-effect at d x k m f a e =
      let e' : effect k d ≡ some a.after = rw f.kind_of at a.effect_of in ground arith

  -- The next instruction, with the operands counted from `low`.
  pub fall-IsAt :
      (at d x low sp pc : ℕ) (k : Kind) (m : Machine)
      → IsFetched code size depth at d k m
      → effect k d ≡ some x
      → falls_through k ≡ true
      → pc ≡ at + 1 + operand_size code size k at
      → low + x ≡ sp
      → IsAt code size depth pc low sp
  fall-IsAt at d x low sp pc k m f e falls p deep = elim (Bool-cases (leb size pc)) [
    | inl over ↦ inl over
    | inr more ↦
        let a = v.agrees at d f.found in
        let same : next_at code size at ≡ pc = rw f.kind_of (sym p) in
        let found : depth (next_at code size at) ≡ some a.after =
          a.fall (rw f.kind_of falls) (rw same (ground arith)) in
        inr (x, (rw same at found) ∙ ap some (after-effect at d x k m f a e), deep)
  ]

  -- The target of a branch.
  pub branch-IsAt :
      (at d x low sp : ℕ) (k : Kind) (m : Machine)
      → IsFetched code size depth at d k m
      → effect k d ≡ some x
      → is_branch k ≡ true
      → low + x ≡ sp
      → IsAt code size depth (target code size at) low sp
  branch-IsAt at d x low sp k m f e branches deep =
      let a = v.agrees at d f.found in
      inr (x, a.branch (rw f.kind_of branches) ∙ ap some (after-effect at d x k m f a e), deep)

  pub fits-fetched :
      (at d : ℕ) (k : Kind) (m : Machine)
      → IsFetched code size depth at d k m
      → fits code size k at ≡ true
  fits-fetched at d k m f = rw f.kind_of at (v.fit at d f.found)

  -- An instruction that goes on with the next one, in the same frame.
  pub moved-IsSafe :
      (at d x : ℕ) (k : Kind) (m : Machine) {operand locals : ℕ → ℕ} {output : List Output}
      {pc sp : ℕ}
      → IsFetched code size depth at d k m
      → effect k d ≡ some x
      → falls_through k ≡ true
      → pc ≡ at + 1 + operand_size code size k at
      → base m.base_sp m.fp + x ≡ sp
      → sp ≤ max_operands
      → IsSafe code size depth
          (record m { operand = operand; locals = locals; output = output; pc = pc; sp = sp })
  moved-IsSafe at d x k m f e falls p deep few = record {
    at = fall-IsAt at d x (base m.base_sp m.fp) _ _ k m f e falls p deep;
    frames = f.frames;
    sp_low = few;
    fp_low = f.fp_low;
    bases = f.bases;
  }

  -- A branch that is taken.
  pub branched-IsSafe :
      (at d x : ℕ) (k : Kind) (m : Machine) {sp : ℕ}
      → IsFetched code size depth at d k m
      → effect k d ≡ some x
      → is_branch k ≡ true
      → base m.base_sp m.fp + x ≡ sp
      → sp ≤ max_operands
      → IsSafe code size depth (record m { pc = target code size at; sp = sp })
  branched-IsSafe at d x k m f e branches deep few = record {
    at = branch-IsAt at d x (base m.base_sp m.fp) _ k m f e branches deep;
    frames = f.frames;
    sp_low = few;
    fp_low = f.fp_low;
    bases = f.bases;
  }

  -- The instructions that take operands are verified to find them.
  pub popped :
      (at d : ℕ) (k : Kind) (m : Machine)
      → IsFetched code size depth at d k m
      → effect k d ≡ (if ltb d 1 then none else some (d - 1))
      → (1 ≤ d) × (effect k d ≡ some (d - 1))
  popped at d k m f e = elim (Bool-cases (ltb d 1)) [
    | inl low ↦
        absurd (ground (arith, v.agrees at d f.found, (v.agrees at d f.found).effect_of, f.kind_of))
    | inr high ↦ (ground arith, e ∙ ground arith)
  ]

  pub popped_two :
      (at d : ℕ) (m : Machine)
      → IsFetched code size depth at d Kind.binary m
      → (2 ≤ d) × (effect Kind.binary d ≡ some (d - 1))
  unfolding effect
  popped_two at d m f = elim (Bool-cases (ltb d 2)) [
    | inl low ↦
        absurd (ground (arith, v.agrees at d f.found, (v.agrees at d f.found).effect_of, f.kind_of))
    | inr high ↦ (ground arith, ground arith)
  ]

  pub branch-inside :
      (at d x : ℕ) (k : Kind) (m : Machine)
      → IsFetched code size depth at d k m
      → effect k d ≡ some x
      → is_branch k ≡ true
      → target code size at < size
  branch-inside at d x k m f e branches =
      let a = v.agrees at d f.found in
      v.inside (target code size at) a.after (a.branch (rw f.kind_of branches))

  -- The frames behind a call.
  pub called-frames :
      (at d : ℕ) (m : Machine)
      → IsFetched code size depth at d Kind.call m
      → (n : ℕ) → n < m.fp + 1
      → IsAt code size depth
          (update m.return_pc m.fp (at + 3) n)
          (base (update m.base_sp m.fp m.sp) n)
          (update m.base_sp m.fp m.sp n + 1)
  unfolding effect falls_through operand_size
  called-frames at d m f n lt = elim (Bool-cases (n == m.fp)) [
    | inl same ↦
        rw (same, base-update m.base_sp m.fp m.sp n (ground arith), eqb→eq n m.fp same)
          (fall-IsAt at d (d + 1) (base m.base_sp m.fp) (m.sp + 1) (at + 3) Kind.call m f refl refl
            (ground arith) (ground (arith, f.here)))
    | inr other ↦
        rw (other, base-update m.base_sp m.fp m.sp n (ground arith)) (f.frames n (ground arith))
  ]
