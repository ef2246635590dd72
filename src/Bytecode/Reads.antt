-- ===== src/Bytecode/Reads.antt =====
-- What bytecode_verify (src/services/halaos_runtime.c) reads of an instruction that fits lies within
-- the code.
use halaos_stm32f103_hardwar.Prelude.{
  ℕ, ◌+◌, ◌*◌, ◌≤◌, ◌<◌, ◌≡◌, refl, ap, ap₂, ◌∙◌, Bool, true, ◌&&◌, none, arith, ltb, leb, inl, inr,
  Bool-cases,
}
use halaos_stm32f103_hardwar.Bytecode.{
  Kind, Analysis, kind, is_branch, is_call, has_target, kind_at, target, next_at, operand_size,
  fits, visit,
}

module _ (c c' : ℕ → ℕ) (size : ℕ) (same : (i : ℕ) → i < size → c i ≡ c' i) where
  pub kind_at-same : (at : ℕ) → at < size → kind_at c size at ≡ kind_at c' size at
  kind_at-same at lt = ap kind (same at lt)

  pub visit-none :
      (x : ℕ → ℕ) (at : ℕ) (a : Analysis) → a.depth at ≡ none → visit x size at a ≡ none
  unfolding visit
  visit-none x at a no_depth = rw (visit, no_depth) refl

  -- A test of the byte behind the opcode comes after the test that it is there.
  guarded :
      (at : ℕ) (test : ℕ → Bool)
      → (ltb (at + 1) size && test (c (at + 1))) ≡ (ltb (at + 1) size && test (c' (at + 1)))
  guarded at test = elim (Bool-cases (ltb (at + 1) size)) [
    | inl inside ↦ ap (λ b. ltb (at + 1) size && test b) (same (at + 1) (ground arith))
    | inr outside ↦ rw outside refl
  ]

  pub fits-same : (k : Kind) (at : ℕ) → fits c size k at ≡ fits c' size k at
  unfolding fits
  fits-same Kind.load_local at = guarded at (λ b. ltb b 8)
  fits-same Kind.store_local at = guarded at (λ b. ltb b 8)
  fits-same Kind.write at = guarded at (λ b. leb (at + 2 + b) size)
  fits-same Kind.push at = refl
  fits-same Kind.binary at = refl
  fits-same Kind.call at = refl
  fits-same Kind.ret at = refl
  fits-same Kind.gpio at = refl
  fits-same Kind.sleep at = refl
  fits-same Kind.jmp at = refl
  fits-same Kind.jz at = refl
  fits-same Kind.print_int at = refl
  fits-same Kind.pop at = refl
  fits-same Kind.halt at = refl
  fits-same Kind.special at = refl
  fits-same Kind.invalid at = refl

  operand_size-same :
      (k : Kind) (at : ℕ)
      → fits c size k at ≡ true
      → operand_size c size k at ≡ operand_size c' size k at
  unfolding operand_size fits
  operand_size-same Kind.write at ok = ap (λ b. 1 + b) (same (at + 1) (ground arith))
  operand_size-same Kind.load_local at ok = refl
  operand_size-same Kind.store_local at ok = refl
  operand_size-same Kind.push at ok = refl
  operand_size-same Kind.binary at ok = refl
  operand_size-same Kind.call at ok = refl
  operand_size-same Kind.ret at ok = refl
  operand_size-same Kind.gpio at ok = refl
  operand_size-same Kind.sleep at ok = refl
  operand_size-same Kind.jmp at ok = refl
  operand_size-same Kind.jz at ok = refl
  operand_size-same Kind.print_int at ok = refl
  operand_size-same Kind.pop at ok = refl
  operand_size-same Kind.halt at ok = refl
  operand_size-same Kind.special at ok = refl
  operand_size-same Kind.invalid at ok = refl

  long : (k : Kind) (at : ℕ) → has_target k ≡ true → fits c size k at ≡ true → at + 3 ≤ size
  unfolding is_call is_branch fits
  long Kind.call at t ok = ground arith
  long Kind.jmp at t ok = ground arith
  long Kind.jz at t ok = ground arith
  long Kind.write at t ok = absurd (ground arith)
  long Kind.load_local at t ok = absurd (ground arith)
  long Kind.store_local at t ok = absurd (ground arith)
  long Kind.push at t ok = absurd (ground arith)
  long Kind.binary at t ok = absurd (ground arith)
  long Kind.ret at t ok = absurd (ground arith)
  long Kind.gpio at t ok = absurd (ground arith)
  long Kind.sleep at t ok = absurd (ground arith)
  long Kind.print_int at t ok = absurd (ground arith)
  long Kind.pop at t ok = absurd (ground arith)
  long Kind.halt at t ok = absurd (ground arith)
  long Kind.special at t ok = absurd (ground arith)
  long Kind.invalid at t ok = absurd (ground arith)

  module _ (at : ℕ) (lt : at < size) (ok : fits c size (kind_at c size at) at ≡ true) where
    pub next_at-same : next_at c size at ≡ next_at c' size at
    next_at-same =
        ap (λ n. at + 1 + n)
          (operand_size-same (kind_at c size at) at ok
            ∙ ap (λ k. operand_size c' size k at) (kind_at-same at lt))

    pub target-same : has_target (kind_at c size at) ≡ true → target c size at ≡ target c' size at
    target-same t =
        let l = long (kind_at c size at) at t ok in
        ap₂ (λ x y. x + y * 256) (same (at + 1) (omega arith)) (same (at + 2) (omega arith))
