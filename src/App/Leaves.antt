-- ===== src/App/Leaves.antt =====
-- What app_write (src/services/halaos_runtime.c) leaves in the slot that it works on.
use halaos_stm32f103_hardwar.Prelude.{
  ℕ, ◌+◌, ◌/◌, ◌%◌, ◌≤◌, ◌<◌, ◌≡◌, ◌⊎◌, inl, inr, refl, ◌∙◌, Bool, true, false, not, ◌||◌, List,
  ◌==◌, ltb, if-cases, arith, inc32, minus,
}
use halaos_stm32f103_hardwar.Boundary.{app_slot_addr, app_slot_count, name_copy}
use halaos_stm32f103_hardwar.Bytecode.{bytecode_verify}
use halaos_stm32f103_hardwar.App.{
  Flash, FlashPart, AppStore, status_verifying, status_valid, erased_half, page_size, code_byte,
  crc32_bytes,
}
use halaos_stm32f103_hardwar.App.Write.{
  header_halves, program_halves, code_loop, commit, write_slot, app_write,
}
use halaos_stm32f103_hardwar.App.Stored.{
  headed_status, coded_status, verifying_status, final_status, IsStored, header_final, bytes_final,
}
use halaos_stm32f103_hardwar.App.Local.{bytecode_verify_count}

module _ (part : FlashPart) (code : ℕ → ℕ) (size flags : ℕ) (name : List ℕ)
    (small : (i : ℕ) → code i < 256) where
  -- What app_write leaves in the slot of sequence `seq`.
  pub record Leaves (seq : ℕ) (a : AppStore) (result : ℕ × AppStore) : Type 0 where
    pub stored :
        result.0 ≡ 0
        → IsStored code size flags result.1
          × (result.1.compile_count ≡ seq)
          × (result.1.app_slot ≡ seq % app_slot_count)
          × ((bytecode_verify code size 0).0 ≡ true)
    pub spoilt :
        (result.1.flash ≡ a.flash)
        ⊎ ((result.1.flash (app_slot_addr (seq % app_slot_count)) == status_valid) ≡ false)

  spoils :
      (seq r : ℕ) (a b : AppStore)
      → (r == 0) ≡ false
      → (b.flash (app_slot_addr (seq % app_slot_count)) == status_valid) ≡ false
      → Leaves seq a (r, b)
  spoils seq r a b failed status = record {
    stored = λ e. absurd (ground arith);
    spoilt = inr status;
  }

  module _ (ok : (bytecode_verify code size 0).0 ≡ true) (le : size ≤ 256) where
    write_slot-Leaves :
        (a : AppStore) → Leaves (inc32 a.compile_count) a (write_slot part code size flags name a)
    unfolding write_slot commit
    write_slot-Leaves a =
        let seq : ℕ = inc32 a.compile_count in
        let base : ℕ = app_slot_addr (seq % app_slot_count) in
        let stage : ℕ = a.app_fail_stage in
        let erased : Flash = part.erase_page base a.flash in
        let nm : List ℕ = name_copy name in
        let halves : List (ℕ × ℕ) = header_halves size flags (crc32_bytes code size) seq nm in
        let headed : Flash = program_halves part base halves erased in
        let coded : Bool × Flash = code_loop part code size base stage ((size + 1) / 2) 0 headed in
        let verifying : Flash = part.program_half base status_verifying coded.1 in
        let clean : (k : ℕ) → k < page_size → erased (base + k) ≡ erased_half =
          λ k lt. part.erase_inside base (base + k) a.flash (omega arith) (omega arith) in
        let P = Leaves seq a in
        if-cases P (stage == 1) _ _
          (λ t.
            spoils seq (minus 31) a _ refl
              (rw (part.erase_inside base base a.flash (omega arith) (omega arith)) refl))
          λ t.
            if-cases P (stage == 2) _ _
              (λ t.
                spoils seq (minus 32) a _ refl
                  (rw (headed_status part code size flags seq nm small stage erased clean) refl))
              λ t.
                if-cases P (not coded.0) _ _
                  (λ t.
                    spoils seq (minus 33) a _ refl
                      (rw (coded_status part code size flags seq nm small stage erased clean) refl))
                  λ finished.
                    if-cases P (stage == 4) _ _
                      (λ t. spoils seq (minus 34) a _ refl (
                        rw (verifying_status part code size flags seq nm small stage erased clean)
                          refl))
                      λ t.
                        if-cases P
                          (not (
                            crc32_bytes (code_byte verifying (seq % app_slot_count)) size
                            == crc32_bytes code size))
                          _ _
                          (λ t.
                            spoils seq (minus 2) a (record a { flash = verifying }) refl
                              (rw
                                (verifying_status part code size flags seq nm small stage erased
                                  clean)
                                refl))
                          λ t. record {
                            stored = λ e. (
                              record {
                                header =
                                    header_final part code size flags seq nm small stage erased
                                      clean (omega arith);
                                bytes =
                                    bytes_final part code size flags seq nm small stage erased clean
                                      (ground arith) le;
                                valid = refl;
                              },
                              refl,
                              refl,
                              ok,
                            );
                            spoilt = inr (
                                rw
                                  (final_status part code size flags seq nm small stage erased
                                    clean)
                                  refl);
                          }

  pub app_write-Leaves :
      (a : AppStore) → Leaves (inc32 a.compile_count) a (app_write part code size flags name a)
  unfolding app_write
  app_write-Leaves a =
      let P = Leaves (inc32 a.compile_count) a in
      if-cases P ((size == 0) || ltb 256 size) _ _
        (λ t. record { stored = λ e. absurd (ground arith); spoilt = inl refl })
        λ fits.
          if-cases P (not (bytecode_verify code size a.rejects).0) _ _
            (λ t. record { stored = λ e. absurd (ground arith); spoilt = inl refl })
            λ accepted.
              write_slot-Leaves (bytecode_verify_count code size 0 a.rejects ∙ ground arith)
                (ground arith) a
