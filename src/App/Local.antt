-- ===== src/App/Local.antt =====
-- app_verify_slot (src/services/halaos_runtime.c) reads its slot of the flash only.
use halaos_stm32f103_hardwar.Prelude.{
  inl, inr, ℕ, zero, suc, ◌+◌, ◌-◌, ◌*◌, ◌/◌, ◌≤◌, ◌<◌, ◌≡◌, refl, sym, ap, ap₂, ◌∙◌, Bool, true,
  false, not, ◌&&◌, ◌||◌, ◌==◌, ltb, if◌then◌else◌, Bool-cases, Option-cases, arith,
}
use halaos_stm32f103_hardwar.Boundary.{app_slot_addr, app_slot_size}
use halaos_stm32f103_hardwar.Bytecode.{bytecode_verify, analyse, max_code}
use halaos_stm32f103_hardwar.Bytecode.Local.{bytecode_verify_local}
use halaos_stm32f103_hardwar.App.{
  Flash, AppHeader, app_header_size, app_magic, status_valid, app_header_slot, code_byte, crc_loop,
  crc32_bytes, app_verify_slot,
}

crc_loop_local :
    (d d' : ℕ → ℕ) (n i c : ℕ)
    → ((x : ℕ) → x < i + n → d x ≡ d' x)
    → crc_loop d n i c ≡ crc_loop d' n i c
unfolding crc_loop
crc_loop_local d d' zero i c same = refl
crc_loop_local d d' (suc n) i c same =
    rw (same i (omega arith)) (crc_loop_local d d' n (i + 1) _ λ x lt. same x (omega arith))

pub crc32_bytes_local :
    (d d' : ℕ → ℕ) (n : ℕ) → ((x : ℕ) → x < n → d x ≡ d' x) → crc32_bytes d n ≡ crc32_bytes d' n
unfolding crc32_bytes
crc32_bytes_local d d' n same =
    ap (λ c. 0xFFFFFFFF - c) (crc_loop_local d d' n 0 0xFFFFFFFF λ x lt. same x (omega arith))

-- Acceptance does not depend on the count of rejections.
pub bytecode_verify_count :
    (code : ℕ → ℕ) (size r q : ℕ)
    → (bytecode_verify code size r).0 ≡ (bytecode_verify code size q).0
unfolding bytecode_verify
bytecode_verify_count code size r q = elim (Bool-cases ((size == 0) || ltb max_code size)) [
  | inl bad ↦ rw bad refl
  | inr fine ↦ elim (Option-cases (analyse code size)) [
    | inl stop ↦ rw (fine, bytecode_verify, stop) refl
    | inr (depth, go) ↦ rw (fine, bytecode_verify, go) refl
  ]
]

guarded :
    (bad ok : Bool) (r : ℕ) (v : Bool × ℕ) (w : Bool)
    → v.0 ≡ w
    → (if bad then (false, r) else if not ok then (false, r) else v).0 ≡ (not bad && (ok && w))
guarded true ok r v w e = refl
guarded false true r v w e = e
guarded false false r v w e = refl

-- The verification by its parts: the tests of the header, the check sum and the bytecode.
unfoldable pub header_fits : AppHeader → Bool
header_fits h = not (
    not (h.status == status_valid)
    || (not (h.magic == app_magic)
        || (not (h.version == 2)
            || ((h.code_size == 0) || ltb (app_slot_size - app_header_size) h.code_size))))

pub verify_parts :
    (m : Flash) (slot r : ℕ)
    → let h = app_header_slot m slot in
      let code = code_byte m slot in
      (app_verify_slot m slot r).0 ≡ (
        header_fits h
        && ((crc32_bytes code h.code_size == h.crc32) && (bytecode_verify code h.code_size 0).0))
unfolding app_verify_slot header_fits
verify_parts m slot r =
    let h = app_header_slot m slot in
    let code = code_byte m slot in
    guarded _ (crc32_bytes code h.code_size == h.crc32) r _ _
      (bytecode_verify_count code h.code_size r 0)

-- The half-words of a slot.
abbrev pub SameSlot : ℕ → Flash → Flash → Type 0
SameSlot slot m n =
    (x : ℕ) → app_slot_addr slot ≤ x → x < app_slot_addr slot + app_slot_size → n x ≡ m x

pub app_header_slot_local :
    (m n : Flash) (slot : ℕ) → SameSlot slot m n → app_header_slot n slot ≡ app_header_slot m slot
unfolding app_header_slot
app_header_slot_local m n slot same =
    let base = app_slot_addr slot in
    let half = λ (k : ℕ) (lt : k < 32). same (base + k) (omega arith) (omega arith) in
    let word = λ (k : ℕ) (lt : k < 30).
      ap₂ (λ x y. x + y * 65536) (same (base + k) (omega arith) (omega arith))
        (same (base + k + 2) (omega arith) (omega arith)) in
    let status = same base (omega arith) (omega arith) in
    let version = half 2 (omega arith) in
    let magic = word 4 (omega arith) in
    let code_size = half 8 (omega arith) in
    let flags = half 10 (omega arith) in
    let crc = word 12 (omega arith) in
    let sequence = word 16 (omega arith) in
    λ i. record {
      status = status i;
      version = version i;
      magic = magic i;
      code_size = code_size i;
      flags = flags i;
      crc32 = crc i;
      sequence = sequence i;
    }

code_byte_local :
    (m n : Flash) (slot i : ℕ)
    → SameSlot slot m n
    → i < app_slot_size - app_header_size
    → code_byte n slot i ≡ code_byte m slot i
unfolding code_byte
code_byte_local m n slot i same lt =
    let half =
      same (app_slot_addr slot + app_header_size + i / 2 * 2) (omega arith) (omega arith) in
    rw half refl

pub app_verify_slot_local :
    (m n : Flash) (slot r : ℕ)
    → SameSlot slot m n
    → (app_verify_slot n slot r).0 ≡ (app_verify_slot m slot r).0
unfolding header_fits
app_verify_slot_local m n slot r same =
    let h = app_header_slot m slot in
    let heads = app_header_slot_local m n slot same in
    verify_parts n slot r
    ∙ rw heads (elim (Bool-cases (header_fits h)) [
      | inr bad ↦ rw bad refl
      | inl fine ↦
          let bytes : (i : ℕ) → i < h.code_size → code_byte n slot i ≡ code_byte m slot i =
            λ i lt. code_byte_local m n slot i same (ground arith) in
          ap₂ (λ x y. header_fits h && ((x == h.crc32) && y))
            (crc32_bytes_local (code_byte n slot) (code_byte m slot) h.code_size bytes)
            (ap (λ (v : Bool × ℕ). v.0)
              (bytecode_verify_local (code_byte n slot) (code_byte m slot) h.code_size bytes 0))
    ])
    ∙ sym (verify_parts m slot r)
