-- ===== src/App/Tests.antt =====
-- Runs of the application store (src/services/halaos_runtime.c) on a flash controller that skips
-- the writes to half-words that are not erased.
use halaos_stm32f103_hardwar.Prelude.{
  ◌⊎◌, ℕ, ◌+◌, ◌%◌, ◌≤◌, ◌<◌, ◌≡◌, ◌≢◌, refl, inl, inr, Bool, true, false, ◌&&◌, ◌||◌, ◌==◌, List,
  [], ◌∷◌, ltb, leb, if◌then◌else◌, update, ne→eqb, eqb_refl, arith,
}
use halaos_stm32f103_hardwar.Boundary.{
  copy_loop, app_slot_addr, app_slot_size, app_slot_count, name_copy,
}
use halaos_stm32f103_hardwar.Bytecode.{
  bytecode_verify, analyse_with, flow_with, mark_loop, check_targets, seed_loop, work_loop, visit,
  visit_with, offer, offer_both, offer_branch, offer_next, seed, effect, fits, falls_through,
  is_branch, is_call, operand_size, kind,
}
use halaos_stm32f103_hardwar.Samples.Code.{byte_at, call_code}
use halaos_stm32f103_hardwar.App.{
  crc_loop, crc_bits, Flash, FlashPart, AppStore, page_size, erased_half, CanProgram,
  status_writing, status_valid, app_header_slot, crc32_bytes, app_verify_slot, app_scan, scan_slot,
  newer, take_best, code_byte,
}
use halaos_stm32f103_hardwar.App.Write.{
  app_write, write_slot, commit, code_loop, program_halves, header_halves,
}
use halaos_stm32f103_hardwar.App.Current.{IsCurrent}
use halaos_stm32f103_hardwar.App.Scan.{app_scan-IsCurrent}
use halaos_stm32f103_hardwar.App.Outside.{InUse, app_write-InUse}

abbrev plain_erase : ℕ → Flash → Flash
plain_erase base m a = if leb base a && ltb a (base + page_size) then erased_half else m a

plain_outside :
    (base a : ℕ) (m : Flash) → (a < base) ⊎ (base + page_size ≤ a) → plain_erase base m a ≡ m a
plain_outside base a m (inl low) = ground arith
plain_outside base a m (inr high) = ground arith

plain_inside :
    (base a : ℕ) (m : Flash) → base ≤ a → a < base + page_size → plain_erase base m a ≡ erased_half
plain_inside base a m low high = ground arith

abbrev plain_program : ℕ → ℕ → Flash → Flash
plain_program at v m = if (m at == erased_half) || (v == 0) then update m at v else m

plain_other : (at v a : ℕ) (m : Flash) → a ≢ at → plain_program at v m a ≡ m a
plain_other at v a m other = ground (arith, ne→eqb a at other)

plain_same : (at v : ℕ) (m : Flash) → CanProgram (m at) v → plain_program at v m at ≡ v
plain_same at v m (inl erased) = ground (arith, eqb_refl at)
plain_same at v m (inr null) = ground (arith, eqb_refl at)

plain_skip : (at v : ℕ) (m : Flash) → m at ≢ erased_half → v ≢ 0 → plain_program at v m at ≡ m at
plain_skip at v m used some_value =
    ground (arith, ne→eqb (m at) erased_half used, ne→eqb v 0 some_value)

abbrev plain_part : FlashPart
plain_part = record {
  erase_page = plain_erase;
  program_half = plain_program;
  erase_outside = plain_outside;
  erase_inside = plain_inside;
  program_other = plain_other;
  program_same = plain_same;
  program_skip = plain_skip;
}

abbrev empty_store : AppStore
empty_store = record {
  flash = λ a. erased_half;
  compile_count = 0;
  app_slot = 0;
  app_type = 0;
  app_valid = false;
  app_fail_stage = 0;
  app_recovery_count = 0;
  rejects = 0;
}

check_value :
    crc32_bytes (byte_at (0x31 ∷ 0x32 ∷ 0x33 ∷ 0x34 ∷ 0x35 ∷ 0x36 ∷ 0x37 ∷ 0x38 ∷ 0x39 ∷ [])) 9
    ≡ 0xCBF43926
unfolding crc32_bytes crc_loop crc_bits
check_value = refl

-- app_write returns 0 and chooses slot 1, but a restart does not find the application.
not_found :
    let (r, b) = app_write plain_part call_code 11 0 (0x61 ∷ []) empty_store in
    (r ≡ 0)
    × (b.app_slot ≡ 1)
    × (b.flash (app_slot_addr 1) ≡ status_writing)
    × ((app_scan b).0 ≡ false)
unfolding app_write write_slot commit code_loop program_halves header_halves app_slot_addr app_scan
    scan_slot newer take_best app_verify_slot app_header_slot code_byte crc32_bytes crc_loop
    crc_bits bytecode_verify analyse_with flow_with mark_loop check_targets seed_loop work_loop
    visit visit_with offer offer_both offer_branch offer_next seed effect fits falls_through
    is_branch is_call operand_size kind name_copy copy_loop
not_found = (refl, refl, refl, refl)

app_write-InUse_example :
    let (r, b) =
      app_write plain_part call_code 11 0 (0x61 ∷ []) (record empty_store { app_fail_stage = 4 }) in
    ((x : ℕ) → app_slot_addr 0 ≤ x → x < app_slot_addr 0 + app_slot_size → b.flash x ≡ erased_half)
    × (r ≢ 0 → InUse (record empty_store { app_fail_stage = 4 }) b)
    × (b.app_slot ≡ b.compile_count % app_slot_count)
app_write-InUse_example =
    app_write-InUse plain_part call_code 11 0 (0x61 ∷ [])
      (record empty_store { app_fail_stage = 4 }) (omega arith) refl

all_bytes : List ℕ → Bool
all_bytes [] = true
all_bytes (b ∷ bs) = ltb b 256 && all_bytes bs

-- The store with one application, in slot 1, whose status has been set from outside.
abbrev first_store : AppStore
first_store =
    let b = (app_write plain_part call_code 11 0 (0x61 ∷ []) empty_store).1 in
    record b { flash = update b.flash (app_slot_addr 1) status_valid }

first_store-IsCurrent : IsCurrent first_store
unfolding app_write write_slot commit code_loop program_halves header_halves app_slot_addr app_scan
    scan_slot newer take_best app_verify_slot app_header_slot code_byte crc32_bytes crc_loop
    crc_bits bytecode_verify analyse_with flow_with mark_loop check_targets seed_loop work_loop
    visit visit_with offer offer_both offer_branch offer_next seed effect fits falls_through
    is_branch is_call operand_size kind name_copy copy_loop
first_store-IsCurrent = record {
  slot = refl;
  current = refl;
  sequence = refl;
  other = λ v. absurd (ground arith);
}

-- The next one is written to slot 0.
abbrev second_store : AppStore
second_store = (app_write plain_part call_code 11 0 (0x62 ∷ []) first_store).1

app_scan-IsCurrent_example :
    let (found, b) = app_scan (record empty_store { flash = first_store.flash }) in
    (found ≡ true)
    × (b.app_slot ≡ first_store.app_slot)
    × (b.compile_count ≡ first_store.compile_count)
    × (b.app_type ≡ (app_header_slot first_store.flash first_store.app_slot).flags)
    × (b.flash ≡ first_store.flash)
app_scan-IsCurrent_example =
    app_scan-IsCurrent first_store (record empty_store { flash = first_store.flash })
      first_store-IsCurrent refl
