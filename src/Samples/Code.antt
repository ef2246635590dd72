-- ===== src/Samples/Code.antt =====
-- Bytecode for the tests: an array of bytes, and a program that bytecode_verify
-- (src/services/halaos_runtime.c) accepts.
use halaos_stm32f103_hardwar.Prelude.{ℕ, zero, suc, true, ◌≡◌, refl, List, [], ◌∷◌}
use halaos_stm32f103_hardwar.Bytecode.{
  bytecode_verify, analyse_with, flow_with, mark_loop, check_targets, seed_loop, work_loop, visit,
  visit_with, offer, offer_both, offer_branch, offer_next, seed, effect, fits, falls_through,
  is_branch, is_call, operand_size, kind,
}

abbrev pub byte_at : List ℕ → ℕ → ℕ
byte_at [] i = 0
byte_at (b ∷ bs) zero = b
byte_at (b ∷ bs) (suc i) = byte_at bs i

-- CALL 5; PRINT_INT; HALT; PUSH 5; RET.
abbrev pub call_code : ℕ → ℕ
call_code = byte_at (0x0E ∷ 5 ∷ 0 ∷ 0x14 ∷ 0xFF ∷ 1 ∷ 5 ∷ 0 ∷ 0 ∷ 0 ∷ 0x0F ∷ [])

pub call_code_verified : (bytecode_verify call_code 11 0).0 ≡ true
unfolding bytecode_verify analyse_with flow_with mark_loop check_targets seed_loop work_loop visit
    visit_with offer offer_both offer_branch offer_next seed effect fits falls_through is_branch
    is_call operand_size kind
call_code_verified = refl
