-- ===== src/App/Stored.antt =====
-- After app_write (src/services/halaos_runtime.c) returns 0, the slot holds the application, all
-- but its status.
use halaos_stm32f103_hardwar.Prelude.{
  ℕ, ◌+◌, ◌*◌, ◌/◌, ◌%◌, ◌≤◌, ◌<◌, ◌≡◌, ◌≢◌, inl, inr, refl, sym, ap, ap₂, ◌∙◌, Bool, true, some,
  List, ◌==◌, if◌then◌else◌, if-cases, Bool-cases, eqb→eq, eqb→ne, arith, u16_mod, u32_mod,
}
use halaos_stm32f103_hardwar.Boundary.{app_slot_addr, app_slot_count}
use halaos_stm32f103_hardwar.App.{
  Flash, FlashPart, AppStore, status_writing, status_verifying, status_valid, app_magic,
  app_header_size, erased_half, page_size, word_at, app_header_slot, code_byte, crc32_bytes,
}
use halaos_stm32f103_hardwar.App.Write.{header_halves, program_halves, code_loop, staged}
use halaos_stm32f103_hardwar.App.Readback.{
  find, program_halves-absent, absent, program_halves_found, code_loop_below, code_loop_found,
}

-- A number from its halves.
halves_of : (x : ℕ) → x % u16_mod + x / u16_mod * u16_mod ≡ x
halves_of x = omega arith

crc32_bytes-bound : (d : ℕ → ℕ) (n : ℕ) → crc32_bytes d n < u32_mod
unfolding crc32_bytes
crc32_bytes-bound d n = omega arith

-- Byte `i` of a half-word that holds bytes `2 * (i / 2)` and the next one.
byte_of_half :
    (f : ℕ → ℕ) (i : ℕ)
    → ((x : ℕ) → f x < 256)
    → (let half = f (0 + 2 * (i / 2)) + f (0 + 2 * (i / 2) + 1) * 256 in
        if i % 2 == 0 then half % 256 else half / 256)
      ≡ f i
byte_of_half f i small = elim (Bool-cases (i % 2 == 0)) [
  | inl even ↦
      let here : 0 + 2 * (i / 2) ≡ i = omega (arith, eqb→eq (i % 2) 0 even) in
      let x = small i in let y = small (i + 1) in rw (even, here) (omega arith)
  | inr odd ↦
      let before : 0 + 2 * (i / 2) + 1 ≡ i = omega (arith, eqb→ne (i % 2) 0 odd) in
      let x = small i in let y = small (0 + 2 * (i / 2)) in rw (odd, before) (omega arith)
]

module _ (part : FlashPart) (base : ℕ) where
  -- The two last status words change nothing else.
  status_elsewhere :
      (k : ℕ) (m : Flash)
      → 0 < k
      → part.program_half base status_valid (part.program_half base status_verifying m) (base + k)
        ≡ m (base + k)
  status_elsewhere k m pos =
      part.program_other base status_valid (base + k) (part.program_half base status_verifying m)
        (λ e. omega arith)
      ∙ part.program_other base status_verifying (base + k) m (λ e. omega arith)

  -- Both are skipped where the status is WRITING already.
  status_once :
      (v : ℕ) (m : Flash)
      → v ≢ 0
      → m base ≡ status_writing
      → part.program_half base v m base ≡ status_writing
  status_once v m some_value e =
      part.program_skip base v m (λ f. absurd (omega (arith, e, f))) some_value ∙ e

  status_last :
      (m : Flash)
      → m base ≡ status_writing
      → part.program_half base status_valid (part.program_half base status_verifying m) base
        ≡ status_writing
  status_last m e =
      status_once status_valid (part.program_half base status_verifying m)
        (λ f. absurd (omega (arith, f)))
        (status_once status_verifying m (λ f. absurd (omega (arith, f))) e)

-- The slot in use holds the application, but its status is still WRITING.
pub record IsStored (code : ℕ → ℕ) (size flags : ℕ) (b : AppStore) : Type 0 where
  pub header : app_header_slot b.flash b.app_slot ≡ record {
    status = status_writing;
    version = 2;
    magic = app_magic;
    code_size = size;
    flags = flags;
    crc32 = crc32_bytes code size;
    sequence = b.compile_count;
  }
  pub bytes : (i : ℕ) → i < size → code_byte b.flash b.app_slot i ≡ code i
  pub valid : b.app_valid ≡ true

module _ (part : FlashPart) (code : ℕ → ℕ) (size flags seq : ℕ) (nm : List ℕ)
    (small : (i : ℕ) → code i < 256) (stage : ℕ) (m : Flash) where
  abbrev slot_base : ℕ
  slot_base = app_slot_addr (seq % app_slot_count)

  abbrev halves : List (ℕ × ℕ)
  halves = header_halves size flags (crc32_bytes code size) seq nm

  abbrev headed : Flash
  headed = program_halves part slot_base halves m

  abbrev coded : Bool × Flash
  coded = code_loop part code size slot_base stage ((size + 1) / 2) 0 headed

  abbrev final : Flash
  final =
      part.program_half slot_base status_valid
        (part.program_half slot_base status_verifying coded.1)

  module _ (clean : (k : ℕ) → k < page_size → m (slot_base + k) ≡ erased_half) where
    header_half :
        (k v : ℕ) → 0 < k → k < app_header_size → find k halves ≡ some v → final (slot_base + k) ≡ v
    unfolding header_halves
    header_half k v pos lt e =
        status_elsewhere part slot_base k coded.1 pos
        ∙ code_loop_below part slot_base code size stage ((size + 1) / 2) 0 k headed (omega arith)
        ∙ program_halves_found part slot_base k v halves m refl (clean k (omega arith)) e

    header_word :
        (k lo hi : ℕ)
        → 0 < k
        → k + 2 < app_header_size
        → find k halves ≡ some lo
        → find (k + 2) halves ≡ some hi
        → word_at final (slot_base + k) ≡ lo + hi * u16_mod
    header_word k lo hi pos lt e f =
        let there : slot_base + k + 2 ≡ slot_base + (k + 2) = omega arith in
        ap₂ (λ x y. x + y * u16_mod) (header_half k lo pos (omega arith) e)
          (ap final there ∙ header_half (k + 2) hi (omega arith) lt f)

    pub headed_status : headed slot_base ≡ status_writing
    unfolding header_halves
    headed_status =
        let here : slot_base + 0 ≡ slot_base = omega arith in
        ap headed (sym here)
        ∙ program_halves_found part slot_base 0 status_writing halves m refl (clean 0 (omega arith))
            refl

    pub coded_status : coded.1 slot_base ≡ status_writing
    coded_status =
        let here : slot_base + 0 ≡ slot_base = omega arith in
        ap coded.1 (sym here)
        ∙ code_loop_below part slot_base code size stage ((size + 1) / 2) 0 0 headed (omega arith)
        ∙ ap headed here
        ∙ headed_status

    pub verifying_status :
        part.program_half slot_base status_verifying coded.1 slot_base ≡ status_writing
    verifying_status =
        status_once part slot_base status_verifying coded.1 (λ f. absurd (omega (arith, f)))
          coded_status

    pub final_status : final slot_base ≡ status_writing
    final_status = status_last part slot_base coded.1 coded_status

    pub header_final :
        seq < u32_mod
        → app_header_slot final (seq % app_slot_count) ≡ record {
          status = status_writing;
          version = 2;
          magic = app_magic;
          code_size = size;
          flags = flags;
          crc32 = crc32_bytes code size;
          sequence = seq;
        }
    unfolding app_header_slot header_halves
    header_final lt =
        let status = status_last part slot_base coded.1 coded_status in
        let version = header_half 2 2 (omega arith) (omega arith) refl in
        let magic =
          header_word 4 (app_magic % u16_mod) (app_magic / u16_mod) (omega arith) (omega arith) refl
            refl in
        let code_size = header_half 8 size (omega arith) (omega arith) refl in
        let flag_half = header_half 10 flags (omega arith) (omega arith) refl in
        let crc =
          header_word 12 (crc32_bytes code size % u16_mod) (crc32_bytes code size / u16_mod)
            (omega arith) (omega arith) refl refl
          ∙ halves_of (crc32_bytes code size) in
        let sequence =
          header_word 16 (seq % u16_mod) (seq / u16_mod) (omega arith) (omega arith) refl refl
          ∙ halves_of seq in
        λ i. record {
          status = status i;
          version = version i;
          magic = magic i;
          code_size = code_size i;
          flags = flag_half i;
          crc32 = crc i;
          sequence = sequence i;
        }

    absent_behind : (n : ℕ) → absent (app_header_size + n) halves ≡ true
    unfolding header_halves
    absent_behind n = ground arith

    staged_small : (x : ℕ) → staged code size x < 256
    staged_small x =
        if-cases (λ y. y < 256) (x == size) 0xFF (code x) (λ t. omega arith) (λ t. small x)

    pub bytes_final :
        coded.0 ≡ true
        → size ≤ 256
        → (i : ℕ) → i < size
        → code_byte final (seq % app_slot_count) i ≡ code i
    unfolding code_byte
    bytes_final finished le i lt =
        let there : slot_base + app_header_size + i / 2 * 2
            ≡ slot_base + (app_header_size + (0 + 2 * (i / 2))) =
          omega arith in
        let fresh : (x : ℕ)
            → x < (size + 1) / 2
            → headed (slot_base + (app_header_size + (0 + 2 * x))) ≡ erased_half =
          λ x less.
            program_halves-absent part slot_base (app_header_size + (0 + 2 * x)) halves m
              (absent_behind (0 + 2 * x))
            ∙ clean (app_header_size + (0 + 2 * x)) (omega arith) in
        let half =
          ap final there
          ∙ status_elsewhere part slot_base (app_header_size + (0 + 2 * (i / 2))) coded.1
              (omega arith)
          ∙ code_loop_found part slot_base code size stage ((size + 1) / 2) 0 (i / 2) headed
              finished fresh (omega arith) in
        rw half (byte_of_half (staged code size) i staged_small ∙ ground arith)
