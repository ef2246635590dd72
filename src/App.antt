-- ===== src/App.antt =====
-- The store of applications in two slots of flash: crc32_bytes of src/boot/halaos_boot.c,
-- app_header_slot and app_code of src/kernel/halaos_kernel.c, and app_verify_slot, app_scan and
-- app_write of src/services/halaos_runtime.c.
pub mod Write
pub mod Outside
pub mod Current
pub mod Leaves
pub mod Local
pub mod Readback
pub mod Recovery
pub mod Scan
pub mod Stored
mod Tests
use Prim.Native.Nat.{bit_xor}
use halaos_stm32f103_hardwar.Prelude.{
  ℕ, zero, suc, ◌+◌, ◌-◌, ◌*◌, ◌/◌, ◌%◌, ◌≤◌, ◌<◌, ◌≡◌, ◌≢◌, ◌⊎◌, Bool, true, false, not, ◌&&◌,
  ◌||◌, Option, none, some, List, [], ◌∷◌, ◌==◌, ltb, leb, if◌then◌else◌, u16_mod, u32_mod, inc32,
  minus,
}
use halaos_stm32f103_hardwar.Boundary.{app_slot_addr, app_slot_size, app_slot_count, name_copy}
use halaos_stm32f103_hardwar.Bytecode.{bytecode_verify}

-- The half-word at an even address.
abbrev pub Flash : Type 0
Flash = ℕ → ℕ

abbrev pub erased_half : ℕ
erased_half = 0xFFFF

abbrev pub page_size : ℕ
page_size = 1024

-- The controller programs a half-word that is erased, and 0 over any other.
abbrev pub CanProgram : ℕ → ℕ → Type 0
CanProgram old new = (old ≡ erased_half) ⊎ (new ≡ 0)

-- What the flash controller does when flash_erase_page and flash_program_half of
-- src/services/halaos_runtime.c drive it, as the STM32F103's flash programming manual (PM0075)
-- describes it: a half-word that is not erased is left as it is, with PGERR set, unless the value
-- is 0.
pub record FlashPart : Type 0 where
  pub erase_page : ℕ → Flash → Flash
  pub program_half : ℕ → ℕ → Flash → Flash
  pub erase_outside :
      (base a : ℕ) (m : Flash) → (a < base) ⊎ (base + page_size ≤ a) → erase_page base m a ≡ m a
  pub erase_inside :
      (base a : ℕ) (m : Flash) → base ≤ a → a < base + page_size → erase_page base m a ≡ erased_half
  pub program_other : (at v a : ℕ) (m : Flash) → a ≢ at → program_half at v m a ≡ m a
  pub program_same : (at v : ℕ) (m : Flash) → CanProgram (m at) v → program_half at v m at ≡ v
  pub program_skip :
      (at v : ℕ) (m : Flash) → m at ≢ erased_half → v ≢ 0 → program_half at v m at ≡ m at

abbrev pub status_writing : ℕ
status_writing = 0x7FFF

abbrev pub status_verifying : ℕ
status_verifying = 0x3FFF

abbrev pub status_valid : ℕ
status_valid = 0x1FFF

abbrev pub app_magic : ℕ
app_magic = 0x48415050

abbrev pub app_header_size : ℕ
app_header_size = 32

pub record AppHeader : Type 0 where
  pub status : ℕ
  pub version : ℕ
  pub magic : ℕ
  pub code_size : ℕ
  pub flags : ℕ
  pub crc32 : ℕ
  pub sequence : ℕ

-- A u32 of the header, low half first.
abbrev pub word_at : Flash → ℕ → ℕ
word_at m a = m a + m (a + 2) * u16_mod

unfoldable pub app_header_slot : Flash → ℕ → AppHeader
app_header_slot m slot =
    let base = app_slot_addr slot in
    record {
      status = m base;
      version = m (base + 2);
      magic = word_at m (base + 4);
      code_size = m (base + 8);
      flags = m (base + 10);
      crc32 = word_at m (base + 12);
      sequence = word_at m (base + 16);
    }

-- Byte `i` of the code in a slot.
unfoldable pub code_byte : Flash → ℕ → ℕ → ℕ
code_byte m slot i =
    let half = m (app_slot_addr slot + app_header_size + i / 2 * 2) in
    if i % 2 == 0 then half % 256 else half / 256

-- `c = (c >> 1) ^ ((0u - (c & 1u)) & 0xEDB88320u)`
abbrev pub crc_bit : ℕ → ℕ
crc_bit c = bit_xor (c / 2) (if c % 2 == 1 then 0xEDB88320 else 0)

unfoldable pub crc_bits : ℕ → ℕ → ℕ
crc_bits zero c = c
crc_bits (suc n) c = crc_bits n (crc_bit c)

-- The bytes from `i` on, `n` of them.
unfoldable pub crc_loop : (ℕ → ℕ) → ℕ → ℕ → ℕ → ℕ
crc_loop d zero i c = c
crc_loop d (suc n) i c = crc_loop d n (i + 1) (crc_bits 8 (bit_xor c (d i)))

unfoldable pub crc32_bytes : (ℕ → ℕ) → ℕ → ℕ
crc32_bytes d n = 0xFFFFFFFF - crc_loop d n 0 0xFFFFFFFF

-- The flash, and the globals of the store; `rejects` is g_bytecode_rejects.
pub record AppStore : Type 0 where
  pub flash : Flash
  pub compile_count : ℕ
  pub app_slot : ℕ
  pub app_type : ℕ
  pub app_valid : Bool
  pub app_fail_stage : ℕ
  pub app_recovery_count : ℕ
  pub rejects : ℕ

-- The second component is g_bytecode_rejects.
unfoldable pub app_verify_slot : Flash → ℕ → ℕ → Bool × ℕ
app_verify_slot m slot rejects =
    let h = app_header_slot m slot in
    let code = code_byte m slot in
    if not (h.status == status_valid)
      || (not (h.magic == app_magic)
          || (not (h.version == 2)
              || ((h.code_size == 0) || ltb (app_slot_size - app_header_size) h.code_size)))
    then (false, rejects)
    else if not (crc32_bytes code h.code_size == h.crc32)
    then (false, rejects)
    else bytecode_verify code h.code_size rejects

-- A slot and its sequence, if one has been found.
abbrev pub Best : Type 0
Best = Option (ℕ × ℕ)

unfoldable pub newer : ℕ → Best → Bool
newer seq none = true
newer seq (some (slot, best)) = ltb best seq

-- A round of the loop of app_scan.
unfoldable pub scan_slot : Flash → ℕ → Best × ℕ → Best × ℕ
scan_slot m slot (best, rejects) =
    let (valid, rejects') = app_verify_slot m slot rejects in
    let seq = (app_header_slot m slot).sequence in
    if valid && newer seq best then (some (slot, seq), rejects') else (best, rejects')

unfoldable pub take_best : Best → AppStore → Bool × AppStore
take_best none a = (false, a)
take_best (some (slot, seq)) a = (
  true,
  record a {
    app_slot = slot;
    compile_count = seq;
    app_type = (app_header_slot a.flash slot).flags;
    app_recovery_count = inc32 a.app_recovery_count;
  },
)

unfoldable pub app_scan : AppStore → Bool × AppStore
app_scan a =
    let (best, rejects) = scan_slot a.flash 1 (scan_slot a.flash 0 (none, a.rejects)) in
    take_best best (record a { rejects = rejects })
