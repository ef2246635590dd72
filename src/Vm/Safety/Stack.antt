-- ===== src/Vm/Safety/Stack.antt =====
-- The instructions of verified code that go on with the next one, on the bytecode machine
-- (src/services/halaos_tasks.c).
use halaos_stm32f103_hardwar.Prelude.{
  if-cases, ℕ, ◌+◌, ◌-◌, ◌≡◌, refl, Bool, ◌&&◌, ◌||◌, Option, arith, ◌==◌, ltb, leb,
}
use halaos_stm32f103_hardwar.Bytecode.{Kind, fits, effect, falls_through, operand_size}
use halaos_stm32f103_hardwar.Bytecode.Verified.{IsVerified}
use halaos_stm32f103_hardwar.Vm.{Machine, execute, max_operands}
use halaos_stm32f103_hardwar.Vm.Safety.{Safe, IsFetched}
use halaos_stm32f103_hardwar.Vm.Safety.Causes.{kind-push, kind-load_local, kind-gpio, code_before}
use halaos_stm32f103_hardwar.Vm.Safety.Moves.{fits-fetched, moved-IsSafe, popped, popped_two}

module _ (code : ℕ → ℕ) (size : ℕ) (depth : ℕ → Option ℕ) (v : IsVerified code size depth)
    (gpio : Machine → Bool) where
  pub push-Safe :
      (at d : ℕ) (m : Machine)
      → IsFetched code size depth at d Kind.push m
      → Safe code size depth (execute code size gpio Kind.push at m)
  unfolding execute effect fits falls_through operand_size
  push-Safe at d m f =
      let ok = fits-fetched code size depth v at d Kind.push m f in
      let op = kind-push (code (m.pc - 1)) (code_before code size depth at d Kind.push m f) in
      if-cases (Safe code size depth) (ltb size (at + 5) || leb max_operands m.sp) _ _
        (λ t. (op, ground arith))
        λ room.
          moved-IsSafe code size depth v at d (d + 1) Kind.push m f refl refl (ground arith)
            (ground (arith, f.here)) (ground arith)

  pub load_local-Safe :
      (at d : ℕ) (m : Machine)
      → IsFetched code size depth at d Kind.load_local m
      → Safe code size depth (execute code size gpio Kind.load_local at m)
  unfolding execute effect fits falls_through operand_size
  load_local-Safe at d m f =
      let ok = fits-fetched code size depth v at d Kind.load_local m f in
      let op =
        kind-load_local (code (m.pc - 1)) (code_before code size depth at d Kind.load_local m f) in
      if-cases (Safe code size depth)
        (leb size (at + 1) || (leb 8 (code (at + 1)) || leb max_operands m.sp)) _ _
        (λ t. (op, ground arith))
        λ room.
          moved-IsSafe code size depth v at d (d + 1) Kind.load_local m f refl refl (ground arith)
            (ground (arith, f.here)) (ground arith)

  pub store_local-Safe :
      (at d : ℕ) (m : Machine)
      → IsFetched code size depth at d Kind.store_local m
      → Safe code size depth (execute code size gpio Kind.store_local at m)
  unfolding execute effect fits falls_through operand_size
  store_local-Safe at d m f =
      let ok = fits-fetched code size depth v at d Kind.store_local m f in
      let (some_operand, e) = popped code size depth v at d Kind.store_local m f refl in
      if-cases (Safe code size depth) (leb size (at + 1) || (leb 8 (code (at + 1)) || (m.sp == 0)))
        _ _ (λ t. absurd (ground (arith, f.here, ok)))
        λ room.
          moved-IsSafe code size depth v at d (d - 1) Kind.store_local m f e refl (ground arith)
            (ground (arith, f.here)) (ground (arith, f.sp_low))

  pub binary-Safe :
      (at d : ℕ) (m : Machine)
      → IsFetched code size depth at d Kind.binary m
      → Safe code size depth (execute code size gpio Kind.binary at m)
  unfolding execute effect falls_through operand_size
  binary-Safe at d m f =
      let (two, e) = popped_two code size depth v at d m f in
      if-cases (Safe code size depth) (ltb m.sp 2) _ _ (λ t. absurd (ground (arith, f.here)))
        λ room.
          if-cases (Safe code size depth) ((code at == 7) && (m.operand (m.sp - 1) == 0)) _ _
            (λ t.
              let before : m.pc - 1 ≡ at = omega (arith, f.next) in
              let right : m.sp - 1 - 1 + 1 ≡ m.sp - 1 = ground (arith, f.here) in
              (rw before (ground arith), rw right (ground arith)))
            λ nonzero.
              moved-IsSafe code size depth v at d (d - 1) Kind.binary m f e refl
                (ground (arith, f.next)) (ground (arith, f.here)) (ground (arith, f.sp_low))

  pub gpio-Safe :
      (at d : ℕ) (m : Machine)
      → IsFetched code size depth at d Kind.gpio m
      → Safe code size depth (execute code size gpio Kind.gpio at m)
  unfolding execute effect falls_through operand_size
  gpio-Safe at d m f =
      if-cases (Safe code size depth) (gpio m) _ _
        (λ t.
          moved-IsSafe code size depth v at d d Kind.gpio m f refl refl (ground (arith, f.next))
            f.here f.sp_low)
        λ t. kind-gpio (code (m.pc - 1)) (code_before code size depth at d Kind.gpio m f)

  pub print_int-Safe :
      (at d : ℕ) (m : Machine)
      → IsFetched code size depth at d Kind.print_int m
      → Safe code size depth (execute code size gpio Kind.print_int at m)
  unfolding execute effect falls_through operand_size
  print_int-Safe at d m f =
      let (some_operand, e) = popped code size depth v at d Kind.print_int m f refl in
      if-cases (Safe code size depth) (m.sp == 0) _ _ (λ t. absurd (ground (arith, f.here)))
        λ room.
          moved-IsSafe code size depth v at d (d - 1) Kind.print_int m f e refl
            (ground (arith, f.next)) (ground (arith, f.here)) (ground (arith, f.sp_low))

  pub pop-Safe :
      (at d : ℕ) (m : Machine)
      → IsFetched code size depth at d Kind.pop m
      → Safe code size depth (execute code size gpio Kind.pop at m)
  unfolding execute effect falls_through operand_size
  pop-Safe at d m f =
      let (some_operand, e) = popped code size depth v at d Kind.pop m f refl in
      if-cases (Safe code size depth) (m.sp == 0) _ _ (λ t. absurd (ground (arith, f.here)))
        λ room.
          moved-IsSafe code size depth v at d (d - 1) Kind.pop m f e refl (ground (arith, f.next))
            (ground (arith, f.here)) (ground (arith, f.sp_low))

  pub write-Safe :
      (at d : ℕ) (m : Machine)
      → IsFetched code size depth at d Kind.write m
      → Safe code size depth (execute code size gpio Kind.write at m)
  unfolding execute effect fits falls_through operand_size
  write-Safe at d m f =
      let ok = fits-fetched code size depth v at d Kind.write m f in
      if-cases (Safe code size depth) (leb size (at + 1)) _ _ (λ t. absurd (ground arith))
        λ first.
          if-cases (Safe code size depth) (ltb size (at + 2 + code (at + 1))) _ _
            (λ t. absurd (ground arith))
            λ rest.
              moved-IsSafe code size depth v at d d Kind.write m f refl refl (ground arith) f.here
                f.sp_low

  pub halt-Safe :
      (at d : ℕ) (m : Machine)
      → IsFetched code size depth at d Kind.halt m
      → Safe code size depth (execute code size gpio Kind.halt at m)
  unfolding execute effect falls_through operand_size
  halt-Safe at d m f = tt
