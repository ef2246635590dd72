-- ===== src/Vm/Arith.antt =====
-- The arithmetic of the bytecode machine (src/services/halaos_tasks.c) on i32 values, each held as
-- the u32 of the same bits.
use halaos_stm32f103_hardwar.Prelude.{
  ℕ, ◌+◌, ◌-◌, ◌*◌, ◌/◌, ◌%◌, Bool, not, ◌&&◌, ◌||◌, ◌==◌, ltb, leb, if◌then◌else◌, add32, sub32,
  u32_mod,
}

abbrev pub sign_bit : ℕ
sign_bit = 0x80000000

abbrev pub is_negative : ℕ → Bool
is_negative x = leb sign_bit x

-- `x < y` on i32 values.
unfoldable pub signed_lt : ℕ → ℕ → Bool
signed_lt x y = ltb ((x + sign_bit) % u32_mod) ((y + sign_bit) % u32_mod)

abbrev pub magnitude : ℕ → ℕ
magnitude x = if is_negative x then u32_mod - x else x

-- `left / right` for a divisor that is not 0: the quotient is cut towards 0, and the one quotient
-- that overflows wraps around.
unfoldable pub signed_div : ℕ → ℕ → ℕ
signed_div x y =
    let q = magnitude x / magnitude y in
    if (is_negative x && is_negative y) || not (is_negative x || is_negative y)
    then q % u32_mod
    else (u32_mod - q) % u32_mod

abbrev pub flag : Bool → ℕ
flag b = if b then 1 else 0

-- HBC_ADD to HBC_NE, in order.
unfoldable pub binary_op : ℕ → ℕ → ℕ → ℕ
binary_op op left right =
    if op == 4
    then add32 left right
    else if op == 5
    then sub32 left right
    else if op == 6
    then left * right % u32_mod
    else if op == 7
    then signed_div left right
    else if op == 8
    then flag (signed_lt left right)
    else if op == 9
    then flag (not (signed_lt right left))
    else if op == 10
    then flag (signed_lt right left)
    else if op == 11
    then flag (not (signed_lt left right))
    else if op == 12
    then flag (left == right)
    else flag (not (left == right))
