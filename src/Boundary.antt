-- ===== src/Boundary.antt =====
-- What the kernel checks of the pointers and names that user code hands it: ptr_in_sram,
-- ptr_readable, app_slot_addr, name_valid and name_copy of src/kernel/halaos_kernel.c.
pub mod Pointer
pub mod Name
mod Tests
use halaos_stm32f103_hardwar.Prelude.{
  ℕ, zero, suc, ◌+◌, ◌*◌, ◌%◌, Bool, true, false, not, ◌&&◌, ◌||◌, List, [], ◌∷◌, ◌==◌, ltb, leb,
  if◌then◌else◌, length, add32,
}

abbrev pub ram_base : ℕ
ram_base = 0x20000000

abbrev pub ram_size : ℕ
ram_size = 0x5000

abbrev pub flash_base : ℕ
flash_base = 0x08000000

abbrev pub app_slot_size : ℕ
app_slot_size = 4096

abbrev pub app_slot_count : ℕ
app_slot_count = 2

abbrev pub app_store_base : ℕ
app_store_base = 0x0800E000

abbrev pub app_store_size : ℕ
app_store_size = 8192

unfoldable pub app_slot_addr : ℕ → ℕ
app_slot_addr slot = app_store_base + slot % app_slot_count * app_slot_size

unfoldable pub ptr_in_sram : ℕ → ℕ → Bool
ptr_in_sram a n =
    not (ltb a ram_base || ltb (ram_base + ram_size) a)
    && not (ltb ram_size n || (ltb (add32 a n) a || ltb (ram_base + ram_size) (add32 a n)))

unfoldable pub ptr_readable : ℕ → ℕ → Bool
ptr_readable a n =
    if n == 0
    then true
    else if ltb (add32 a n) a
    then false
    else if leb ram_base a && leb (add32 a n) (ram_base + ram_size)
    then true
    else leb flash_base a && leb (add32 a n) (app_store_base + app_store_size)

-- A name is the list of its characters before the NUL.
abbrev pub is_name_char : ℕ → Bool
is_name_char c =
    (leb 97 c && leb c 122)
    || (leb 65 c && leb c 90)
    || (leb 48 c && leb c 57)
    || (c == 45)
    || (c == 95)

unfoldable pub all_name_chars : List ℕ → Bool
all_name_chars [] = true
all_name_chars (c ∷ s) = let rest = all_name_chars s in if is_name_char c then rest else false

unfoldable pub name_valid : List ℕ → Bool
name_valid s = if (length s == 0) || ltb 11 (length s) then false else all_name_chars s

pub zeros : ℕ → List ℕ
zeros zero = []
zeros (suc n) = 0 ∷ zeros n

-- The two loops of name_copy: `left` cells of the 12 are to be written, the last one with NUL.
unfoldable pub copy_loop : ℕ → List ℕ → List ℕ
copy_loop zero s = zeros 1
copy_loop (suc left) [] = zeros (left + 2)
copy_loop (suc left) (c ∷ s) = c ∷ copy_loop left s

unfoldable pub name_copy : List ℕ → List ℕ
name_copy s = copy_loop 11 s
