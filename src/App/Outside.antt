-- ===== src/App/Outside.antt =====
-- app_write (src/services/halaos_runtime.c) leaves the slot alone that is in use.
use halaos_stm32f103_hardwar.Prelude.{
  ℕ, zero, suc, ◌+◌, ◌*◌, ◌/◌, ◌%◌, ◌≤◌, ◌<◌, ◌≡◌, ◌≢◌, ◌⊎◌, inl, inr, refl, ◌∙◌, Bool, not, ◌&&◌,
  ◌||◌, List, [], ◌∷◌, ◌==◌, ltb, leb, if-cases, eqb→eq, eqb→ne, Bool-cases, arith, inc32, minus,
  u32_mod,
}
use halaos_stm32f103_hardwar.Boundary.{app_slot_addr, app_slot_size, app_slot_count, name_copy}
use halaos_stm32f103_hardwar.Bytecode.{bytecode_verify}
use halaos_stm32f103_hardwar.App.{
  Flash, FlashPart, AppStore, page_size, status_verifying, status_valid, app_header_size,
  crc32_bytes,
}
use halaos_stm32f103_hardwar.App.Write.{
  header_halves, program_halves, code_loop, commit, write_slot, app_write, staged,
}

-- The half-words outside the page at `base` are the same.
abbrev SameOutside : ℕ → Flash → Flash → Type 0
SameOutside base m n = (x : ℕ) → (x < base) ⊎ (base + page_size ≤ x) → n x ≡ m x

-- Every offset lies in the page.
abbrev Inside : List (ℕ × ℕ) → Type 0
Inside [] = Unit {0}
Inside ((offset, v) ∷ rest) = (offset < page_size) × Inside rest

-- The globals that say which application is in use.
pub record InUse (a b : AppStore) : Type 0 where
  pub app_slot : b.app_slot ≡ a.app_slot
  pub compile_count : b.compile_count ≡ a.compile_count
  pub app_type : b.app_type ≡ a.app_type
  pub app_valid : b.app_valid ≡ a.app_valid

module _ (part : FlashPart) where
  program-SameOutside :
      (base at v : ℕ) (m n : Flash)
      → base ≤ at
      → at < base + page_size
      → SameOutside base m n
      → SameOutside base m (part.program_half at v n)
  program-SameOutside base at v m n low high same x out =
      part.program_other at v x n
        (λ e. elim out [ inl below ↦ omega arith | inr above ↦ omega arith ])
      ∙ same x out

  program_halves-SameOutside :
      (base : ℕ) (ws : List (ℕ × ℕ)) (m n : Flash)
      → Inside ws
      → SameOutside base m n
      → SameOutside base m (program_halves part base ws n)
  unfolding program_halves
  program_halves-SameOutside base [] m n i same = same
  program_halves-SameOutside base ((offset, v) ∷ rest) m n i same =
      program_halves-SameOutside base rest m (part.program_half (base + offset) v n) i.1
        (program-SameOutside base (base + offset) v m n (omega arith) (omega (arith, i.0)) same)

  code_loop-SameOutside :
      (code : ℕ → ℕ) (size base stage k i : ℕ) (m n : Flash)
      → i + 2 * k ≤ 258
      → SameOutside base m n
      → SameOutside base m (code_loop part code size base stage k i n).1
  unfolding code_loop
  code_loop-SameOutside code size base stage zero i m n le same = same
  code_loop-SameOutside code size base stage (suc k) i m n le same =
      let v : ℕ = staged code size i + staged code size (i + 1) * 256 in
      let here =
        program-SameOutside base (base + (app_header_size + i)) v m n (omega arith) (omega arith)
          same in
      if-cases (λ (x : Bool × Flash). SameOutside base m x.1) ((stage == 3) && leb 2 i) _ _
        (λ t. here) λ t. code_loop-SameOutside code size base stage k (i + 2) m _ (omega arith) here

  -- What holds of a result of app_write that works on the page at `base`.
  record Keeps (base : ℕ) (a : AppStore) (result : ℕ × AppStore) : Type 0 where
    flash : SameOutside base a.flash result.1.flash
    globals : result.0 ≢ 0 → InUse a result.1
    slot :
        a.app_slot ≡ a.compile_count % app_slot_count
        → result.1.app_slot ≡ result.1.compile_count % app_slot_count

  kept :
      (base r : ℕ) (a : AppStore) (m : Flash)
      → SameOutside base a.flash m
      → Keeps base a (r, record a { flash = m })
  kept base r a m same = record {
    flash = same;
    globals = λ failed. record {
      app_slot = refl;
      compile_count = refl;
      app_type = refl;
      app_valid = refl;
    };
    slot = λ e. e;
  }

  commit-Keeps :
      (code : ℕ → ℕ) (size flags seq : ℕ) (finished : Bool) (m : Flash) (a : AppStore)
      → SameOutside (app_slot_addr (seq % app_slot_count)) a.flash m
      → Keeps
          (app_slot_addr (seq % app_slot_count))
          a
          (commit part code size flags seq (finished, m) a)
  unfolding commit
  commit-Keeps code size flags seq finished m a same =
      let base = app_slot_addr (seq % app_slot_count) in
      let m' = part.program_half base status_verifying m in
      let once =
        program-SameOutside base base status_verifying a.flash m (omega arith) (omega arith) same in
      if-cases (Keeps base a) (not finished) _ _ (λ t. kept base (minus 33) a m same)
        λ t.
          if-cases (Keeps base a) (a.app_fail_stage == 4) _ _ (λ t. kept base (minus 34) a m' once)
            λ t.
              if-cases (Keeps base a) _ _ _ (λ t. kept base (minus 2) a m' once)
                λ t. record {
                  flash =
                      program-SameOutside base base status_valid a.flash m' (omega arith)
                        (omega arith) once;
                  globals = λ failed. absurd (failed refl);
                  slot = λ e. refl;
                }

  write_slot-Keeps :
      (code : ℕ → ℕ) (size flags : ℕ) (name : List ℕ) (a : AppStore)
      → size ≤ 256
      → Keeps
          (app_slot_addr (inc32 a.compile_count % app_slot_count))
          a
          (write_slot part code size flags name a)
  unfolding write_slot header_halves
  write_slot-Keeps code size flags name a le =
      let seq = inc32 a.compile_count in
      let base = app_slot_addr (seq % app_slot_count) in
      let erased = part.erase_page base a.flash in
      let halves = header_halves size flags (crc32_bytes code size) seq (name_copy name) in
      let headed = program_halves part base halves erased in
      let clean : SameOutside base a.flash erased =
        λ x out. part.erase_outside base x a.flash out in
      let head = program_halves-SameOutside base halves a.flash erased (ground arith) clean in
      if-cases (Keeps base a) (a.app_fail_stage == 1) _ _ (λ t. kept base (minus 31) a erased clean)
        λ t.
          if-cases (Keeps base a) (a.app_fail_stage == 2) _ _
            (λ t. kept base (minus 32) a headed head)
            λ t. commit-Keeps code size flags seq _ _ a (
              code_loop-SameOutside code size base a.app_fail_stage ((size + 1) / 2) 0 a.flash
                headed (omega arith) head)

  app_write-Keeps :
      (code : ℕ → ℕ) (size flags : ℕ) (name : List ℕ) (a : AppStore)
      → Keeps
          (app_slot_addr (inc32 a.compile_count % app_slot_count))
          a
          (app_write part code size flags name a)
  unfolding app_write
  app_write-Keeps code size flags name a =
      let base = app_slot_addr (inc32 a.compile_count % app_slot_count) in
      if-cases (Keeps base a) ((size == 0) || ltb 256 size) _ _
        (λ t. kept base (minus 1) a a.flash λ x out. refl)
        λ t.
          if-cases (Keeps base a) (not (bytecode_verify code size a.rejects).0) _ _
            (λ t. record {
              flash = λ x out. refl;
              globals = λ failed. record {
                app_slot = refl;
                compile_count = refl;
                app_type = refl;
                app_valid = refl;
              };
              slot = λ e. e;
            })
            λ ok. write_slot-Keeps code size flags name a (ground arith)

-- Where the slot in use is the one of compile_count's parity: whatever app_write returns, every
-- half-word of the slot in use is as it was, and the slot in use is still the one of
-- compile_count's parity; if the result is an error, the globals that name the application in use
-- are as they were.
pub app_write-InUse :
    (part : FlashPart) (code : ℕ → ℕ) (size flags : ℕ) (name : List ℕ) (a : AppStore)
    → a.compile_count < u32_mod
    → a.app_slot ≡ a.compile_count % app_slot_count
    → let (r, b) = app_write part code size flags name a in
      ((x : ℕ)
        → app_slot_addr a.app_slot ≤ x
        → x < app_slot_addr a.app_slot + app_slot_size
        → b.flash x ≡ a.flash x)
      × (r ≢ 0 → InUse a b)
      × (b.app_slot ≡ b.compile_count % app_slot_count)
unfolding app_slot_addr
app_write-InUse part code size flags name a small here =
    let k = app_write-Keeps part code size flags name a in
    (
      (λ x low high. k.flash x (elim (Bool-cases (a.compile_count % 2 == 0)) [
        | inl even ↦ inl (omega (arith, eqb→eq (a.compile_count % 2) 0 even))
        | inr odd ↦ inr (omega (arith, eqb→ne (a.compile_count % 2) 0 odd))
      ])),
      k.globals,
      k.slot here,
    )
