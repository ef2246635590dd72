-- ===== src/Boundary/Tests.antt =====
-- Pointers and names, on concrete values.
use halaos_stm32f103_hardwar.Prelude.{
  ℕ, ◌+◌, ◌≡◌, refl, ◌&&◌, ◌||◌, List, [], ◌∷◌, arith, ◌==◌, leb, length,
}
use halaos_stm32f103_hardwar.Boundary.{
  ram_base, ram_size, flash_base, app_store_base, app_store_size, ptr_in_sram, ptr_readable,
  name_valid, name_copy, all_name_chars,
}
use halaos_stm32f103_hardwar.Boundary.Pointer.{ptr_in_sram-range, ptr_readable-range}
use halaos_stm32f103_hardwar.Boundary.Name.{c_string, c_string-name_copy}

-- A range from the end of SRAM whose end wraps around.
ptr_in_sram-range_example :
    ptr_in_sram 0x20004FFF 0xFFFFFFFF
    ≡ (leb ram_base 0x20004FFF && leb (0x20004FFF + 0xFFFFFFFF) (ram_base + ram_size))
ptr_in_sram-range_example = ptr_in_sram-range 0x20004FFF 0xFFFFFFFF (omega arith) (omega arith)

ptr_readable-range_example : ptr_readable 0x08000100 64 ≡ (
    (64 == 0)
    || ((leb ram_base 0x08000100 && leb (0x08000100 + 64) (ram_base + ram_size))
        || (leb flash_base 0x08000100 && leb (0x08000100 + 64) (app_store_base + app_store_size))))
ptr_readable-range_example = ptr_readable-range 0x08000100 64 (omega arith) (omega arith)

-- "app0"
abbrev app0 : List ℕ
app0 = 97 ∷ 112 ∷ 112 ∷ 48 ∷ []

c_string-name_copy_example : (c_string (name_copy app0) ≡ app0) × (length (name_copy app0) ≡ 12)
unfolding name_valid all_name_chars
c_string-name_copy_example = c_string-name_copy app0 refl
