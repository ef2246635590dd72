-- ===== src/Bytecode/Tests.antt =====
-- Runs of bytecode_verify (src/services/halaos_runtime.c).
use halaos_stm32f103_hardwar.Prelude.{ℕ, update, arith, false, none, ◌≡◌, refl, [], ◌∷◌}
use halaos_stm32f103_hardwar.Samples.Code.{byte_at, call_code}
use halaos_stm32f103_hardwar.Bytecode.Local.{bytecode_verify_local}
use halaos_stm32f103_hardwar.Bytecode.Reject.{Reason, analyse_with-Reason}
use halaos_stm32f103_hardwar.Bytecode.{
  analyse, bytecode_verify, analyse_with, flow_with, mark_loop, check_targets, seed_loop, work_loop,
  visit, visit_with, offer, offer_both, offer_branch, offer_next, seed, effect, fits, falls_through,
  is_branch, is_call, operand_size, kind,
}

-- POP on an empty stack.
pop_rejected : bytecode_verify (byte_at (0x15 ∷ 0xFF ∷ [])) 2 7 ≡ (false, 8)
unfolding bytecode_verify analyse_with flow_with mark_loop check_targets seed_loop work_loop visit
    visit_with offer offer_both offer_branch offer_next seed effect fits falls_through is_branch
    is_call operand_size kind
pop_rejected = refl

analyse_with-Reason_example :
    let pop = byte_at (0x15 ∷ 0xFF ∷ []) in
    (analyse_with pop 2 300 ≡ analyse pop 2) × (analyse_with pop 2 300 ≡ none → Reason pop 2)
analyse_with-Reason_example =
    analyse_with-Reason (byte_at (0x15 ∷ 0xFF ∷ [])) 2 300 (omega arith) (omega arith)

-- The byte behind the code differs.
abbrev call_code_and_more : ℕ → ℕ
call_code_and_more = update call_code 11 0x15

bytecode_verify_local_example :
    bytecode_verify call_code 11 0 ≡ bytecode_verify call_code_and_more 11 0
bytecode_verify_local_example =
    bytecode_verify_local call_code call_code_and_more 11 (λ i lt. ground arith) 0
