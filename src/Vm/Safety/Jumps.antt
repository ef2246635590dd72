-- ===== src/Vm/Safety/Jumps.antt =====
-- The calls, returns, jumps and sleeps of verified code on the bytecode machine
-- (src/services/halaos_tasks.c).
use halaos_stm32f103_hardwar.Prelude.{
  if-cases, ℕ, ◌+◌, ◌-◌, ◌%◌, ◌≤◌, ◌≡◌, refl, sym, Bool, true, false, eqb→eq, zero, suc, not, ◌||◌,
  Option, some, arith, ◌==◌, ltb, leb, inl, inr, Bool-cases, u8_mod,
}
use halaos_stm32f103_hardwar.Bytecode.{
  Kind, target, fits, effect, is_call, is_branch, falls_through, operand_size,
}
use halaos_stm32f103_hardwar.Bytecode.Verified.{IsVerified}
use halaos_stm32f103_hardwar.Vm.{Machine, execute, max_operands, max_frames}
use halaos_stm32f103_hardwar.Vm.Safety.{base, Safe, IsFetched}
use halaos_stm32f103_hardwar.Vm.Safety.Causes.{kind-call, kind-ret, code_before}
use halaos_stm32f103_hardwar.Vm.Safety.Moves.{
  fits-fetched, moved-IsSafe, branched-IsSafe, base-call, popped, called-frames, branch-inside,
}

base-inner : (bases : ℕ → ℕ) (fp : ℕ) → (fp == 0) ≡ false → base bases fp ≡ bases (fp - 1)
base-inner bases zero e = absurd (ground arith)
base-inner bases (suc n) e = let same : suc n - 1 ≡ n = omega arith in rw same refl

module _ (code : ℕ → ℕ) (size : ℕ) (depth : ℕ → Option ℕ) (v : IsVerified code size depth)
    (gpio : Machine → Bool) where
  pub call-Safe :
      (at d : ℕ) (m : Machine)
      → IsFetched code size depth at d Kind.call m
      → Safe code size depth (execute code size gpio Kind.call at m)
  unfolding execute effect fits falls_through operand_size is_call
  call-Safe at d m f =
      let ok = fits-fetched code size depth v at d Kind.call m f in
      let entered : depth (target code size at) ≡ some 0 =
        v.calls at d f.found (rw f.kind_of refl) in
      if-cases (Safe code size depth) (ltb size (at + 3) || leb max_frames m.fp) _ _
        (λ t. (
          kind-call (code (m.pc - 1)) (code_before code size depth at d Kind.call m f),
          ground arith,
        ))
        λ room.
          if-cases (Safe code size depth) (leb size (target code size at)) _ _
            (λ t. absurd (ground (arith, v.inside (target code size at) 0 entered)))
            λ inside. record {
              at = inr (0, entered, base-call m.base_sp m.fp m.sp);
              frames = called-frames code size depth v at d m f;
              sp_low = f.sp_low;
              fp_low = ground arith;
              bases = λ n lt. elim (Bool-cases (n == m.fp)) [
                | inl same ↦ rw same f.sp_low
                | inr other ↦ rw other (f.bases n (ground arith))
              ];
            }

  returned : (at d : ℕ) (m : Machine) → IsFetched code size depth at d Kind.ret m → d ≡ 1
  unfolding effect
  returned at d m f =
      let a = v.agrees at d f.found in
      let e : effect Kind.ret d ≡ some a.after = rw f.kind_of at a.effect_of in ground arith

  -- A return finds one operand above its frame, so that only the entry has no frame to return to.
  only_entry :
      (at d : ℕ) (m : Machine)
      → IsFetched code size depth at d Kind.ret m
      → ((m.fp == 0) || not (m.sp == (m.base_sp (m.fp - 1) + 1) % u8_mod)) ≡ true
      → m.fp ≡ 0
  unfolding effect
  only_entry at d m f t = elim (Bool-cases (m.fp == 0)) [
    | inl entry ↦ eqb→eq m.fp 0 entry
    | inr inner ↦
        let one : d ≡ 1 = returned at d m f in
        let n = m.fp - 1 in
        let under : base m.base_sp m.fp ≡ m.base_sp n = base-inner m.base_sp m.fp inner in
        let low = f.bases n (ground arith) in absurd (ground (arith, f.here))
  ]

  pub ret-Safe :
      (at d : ℕ) (m : Machine)
      → IsFetched code size depth at d Kind.ret m
      → Safe code size depth (execute code size gpio Kind.ret at m)
  unfolding execute
  ret-Safe at d m f =
      if-cases (Safe code size depth)
        ((m.fp == 0) || not (m.sp == (m.base_sp (m.fp - 1) + 1) % u8_mod)) _ _
        (λ t. (
          kind-ret (code (m.pc - 1)) (code_before code size depth at d Kind.ret m f),
          only_entry at d m f (ground arith),
        ))
        λ room.
          let low = f.bases (m.fp - 1) (ground arith) in
          let same : m.base_sp (m.fp - 1) + 1 ≡ m.sp = ground arith in
          record {
            at = rw (sym same) (f.frames (m.fp - 1) (ground arith));
            frames = λ n lt. f.frames n (ground arith);
            sp_low = f.sp_low;
            fp_low = ground (arith, f.fp_low);
            bases = λ n lt. f.bases n (ground arith);
          }

  pub jmp-Safe :
      (at d : ℕ) (m : Machine)
      → IsFetched code size depth at d Kind.jmp m
      → Safe code size depth (execute code size gpio Kind.jmp at m)
  unfolding execute effect fits is_branch
  jmp-Safe at d m f =
      let ok = fits-fetched code size depth v at d Kind.jmp m f in
      let inside = branch-inside code size depth v at d d Kind.jmp m f refl refl in
      if-cases (Safe code size depth) (ltb size (at + 3)) _ _ (λ t. absurd (ground arith))
        λ room.
          if-cases (Safe code size depth) (leb size (target code size at)) _ _
            (λ t. absurd (ground arith))
            λ t. branched-IsSafe code size depth v at d d Kind.jmp m f refl refl f.here f.sp_low

  pub jz-Safe :
      (at d : ℕ) (m : Machine)
      → IsFetched code size depth at d Kind.jz m
      → Safe code size depth (execute code size gpio Kind.jz at m)
  unfolding execute effect fits is_branch falls_through operand_size
  jz-Safe at d m f =
      let ok = fits-fetched code size depth v at d Kind.jz m f in
      let (some_operand, e) = popped code size depth v at d Kind.jz m f refl in
      let inside = branch-inside code size depth v at d (d - 1) Kind.jz m f e refl in
      let deep : base m.base_sp m.fp + (d - 1) ≡ m.sp - 1 = ground (arith, f.here) in
      let low : m.sp - 1 ≤ max_operands = ground (arith, f.sp_low) in
      if-cases (Safe code size depth) (ltb size (at + 3) || (m.sp == 0)) _ _
        (λ t. absurd (ground (arith, f.here)))
        λ room.
          if-cases (Safe code size depth) (not (m.operand (m.sp - 1) == 0)) _ _
            (λ t.
              moved-IsSafe code size depth v at d (d - 1) Kind.jz m f e refl (ground arith) deep
                low)
            λ zero_top.
              if-cases (Safe code size depth) (leb size (target code size at)) _ _
                (λ t. absurd (ground arith))
                λ t. branched-IsSafe code size depth v at d (d - 1) Kind.jz m f e refl deep low

  pub sleep-Safe :
      (at d : ℕ) (m : Machine)
      → IsFetched code size depth at d Kind.sleep m
      → Safe code size depth (execute code size gpio Kind.sleep at m)
  unfolding execute effect fits falls_through operand_size
  sleep-Safe at d m f =
      let ok = fits-fetched code size depth v at d Kind.sleep m f in
      if-cases (Safe code size depth) (ltb size (at + 3)) _ _ (λ t. absurd (ground arith))
        λ room.
          moved-IsSafe code size depth v at d d Kind.sleep m f refl refl (ground arith) f.here
            f.sp_low
