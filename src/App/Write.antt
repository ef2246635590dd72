-- ===== src/App/Write.antt =====
-- app_write of src/services/halaos_runtime.c: a new application is written to the slot that is not
-- in use. g_app_fail_stage makes it give up at a stage.
use halaos_stm32f103_hardwar.Prelude.{
  ℕ, zero, suc, ◌+◌, ◌*◌, ◌/◌, ◌%◌, Bool, true, false, not, ◌&&◌, ◌||◌, List, [], ◌∷◌, ◌==◌, ltb,
  leb, if◌then◌else◌, u16_mod, inc32, minus,
}
use halaos_stm32f103_hardwar.Boundary.{app_slot_addr, app_slot_count, name_copy}
use halaos_stm32f103_hardwar.Bytecode.{bytecode_verify}
use halaos_stm32f103_hardwar.App.{
  Flash, FlashPart, AppStore, status_writing, status_verifying, status_valid, app_magic,
  app_header_size, code_byte, crc32_bytes,
}

-- Cell `i` of a buffer.
pub cell : List ℕ → ℕ → ℕ
cell [] i = 0
cell (c ∷ s) zero = c
cell (c ∷ s) (suc i) = cell s i

-- Bytes `i` and `i + 1` of the name.
abbrev pub name_half : List ℕ → ℕ → ℕ
name_half nm i = cell nm i + cell nm (i + 1) * 256

-- The half-words of the header, each with its offset from the start of the slot, in order.
unfoldable pub header_halves : ℕ → ℕ → ℕ → ℕ → List ℕ → List (ℕ × ℕ)
header_halves size flags crc seq nm =
    (0, status_writing)
    ∷ (2, 2)
    ∷ (4, app_magic % u16_mod)
    ∷ (6, app_magic / u16_mod)
    ∷ (8, size)
    ∷ (10, flags)
    ∷ (12, crc % u16_mod)
    ∷ (14, crc / u16_mod)
    ∷ (16, seq % u16_mod)
    ∷ (18, seq / u16_mod)
    ∷ (20, name_half nm 0)
    ∷ (22, name_half nm 2)
    ∷ (24, name_half nm 4)
    ∷ (26, name_half nm 6)
    ∷ (28, name_half nm 8)
    ∷ (30, name_half nm 10)
    ∷ []

-- g_flash_staging: the code, and an erased byte behind it.
abbrev pub staged : (ℕ → ℕ) → ℕ → ℕ → ℕ
staged code size i = if i == size then 0xFF else code i

-- The parameters of app_write, but for the name's default.
module _ (part : FlashPart) where
  unfoldable pub program_halves : ℕ → List (ℕ × ℕ) → Flash → Flash
  program_halves base [] m = m
  program_halves base ((offset, v) ∷ rest) m =
      program_halves base rest (part.program_half (base + offset) v m)

  -- The loop over the code from byte `i` on, `n` half-words; `false` if it fails on the way.
  unfoldable pub code_loop : (ℕ → ℕ) → ℕ → ℕ → ℕ → ℕ → ℕ → Flash → Bool × Flash
  code_loop code size base stage zero i m = (true, m)
  code_loop code size base stage (suc n) i m =
      let v = staged code size i + staged code size (i + 1) * 256 in
      let m' = part.program_half (base + (app_header_size + i)) v m in
      let rest = code_loop code size base stage n (i + 2) m' in
      if (stage == 3) && leb 2 i then (false, m') else rest

  -- The end of the transaction, on what the loop has left.
  unfoldable pub commit : (ℕ → ℕ) → ℕ → ℕ → ℕ → Bool × Flash → AppStore → ℕ × AppStore
  commit code size flags seq (finished, m) a =
      let slot = seq % app_slot_count in
      let base = app_slot_addr slot in
      let m' = part.program_half base status_verifying m in
      if not finished
      then (minus 33, record a { flash = m })
      else if a.app_fail_stage == 4
      then (minus 34, record a { flash = m' })
      else if not (crc32_bytes (code_byte m' slot) size == crc32_bytes code size)
      then (minus 2, record a { flash = m' })
      else (
        0,
        record a {
          flash = part.program_half base status_valid m';
          compile_count = seq;
          app_slot = slot;
          app_type = flags;
          app_valid = true;
          app_fail_stage = 0;
        },
      )

  -- What is behind the checks of the parameters.
  unfoldable pub write_slot : (ℕ → ℕ) → ℕ → ℕ → List ℕ → AppStore → ℕ × AppStore
  write_slot code size flags name a =
      let seq = inc32 a.compile_count in
      let base = app_slot_addr (seq % app_slot_count) in
      let erased = part.erase_page base a.flash in
      let halves = header_halves size flags (crc32_bytes code size) seq (name_copy name) in
      let headed = program_halves base halves erased in
      if a.app_fail_stage == 1
      then (minus 31, record a { flash = erased })
      else if a.app_fail_stage == 2
      then (minus 32, record a { flash = headed })
      else commit code size flags seq
          (code_loop code size base a.app_fail_stage ((size + 1) / 2) 0 headed) a

  -- `name` is "app0" where the caller gives none.
  unfoldable pub app_write : (ℕ → ℕ) → ℕ → ℕ → List ℕ → AppStore → ℕ × AppStore
  app_write code size flags name a =
      let (valid, rejects) = bytecode_verify code size a.rejects in
      if (size == 0) || ltb 256 size
      then (minus 1, a)
      else if not valid
      then (minus 3, record a { rejects = rejects })
      else write_slot code size flags name a
