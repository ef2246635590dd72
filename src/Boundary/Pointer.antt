-- ===== src/Boundary/Pointer.antt =====
-- The pointer checks accept exactly the ranges that lie in memory, sums that wrap around included.
use halaos_stm32f103_hardwar.Prelude.{ℕ, ◌+◌, ◌<◌, ◌≤◌, ◌≡◌, ◌&&◌, ◌||◌, arith, ◌==◌, leb, u32_mod}
use halaos_stm32f103_hardwar.Boundary.{
  ram_base, ram_size, flash_base, app_store_base, app_store_size, ptr_in_sram, ptr_readable,
  app_slot_addr, app_slot_size,
}

-- For an address and a length that are u32 values, ptr_in_sram accepts exactly the ranges that
-- lie in SRAM, where the end of the range is taken without wrap-around.
pub ptr_in_sram-range :
    (a n : ℕ)
    → a < u32_mod
    → n < u32_mod
    → ptr_in_sram a n ≡ (leb ram_base a && leb (a + n) (ram_base + ram_size))
unfolding ptr_in_sram
ptr_in_sram-range a n low small = ground arith

-- For an address and a length that are u32 values, ptr_readable accepts exactly the empty ranges,
-- those that lie in SRAM, and those that lie between the start of flash and the end of the
-- application store, where the end of a range is taken without wrap-around.
pub ptr_readable-range :
    (a n : ℕ)
    → a < u32_mod
    → n < u32_mod
    → ptr_readable a n ≡ (
        (n == 0)
        || ((leb ram_base a && leb (a + n) (ram_base + ram_size))
            || (leb flash_base a && leb (a + n) (app_store_base + app_store_size))))
unfolding ptr_readable
ptr_readable-range a n low small = ground arith

-- For every slot number the slot that app_slot_addr names lies within the application store.
pub app_slot_addr-bounds :
    (slot : ℕ)
    → (app_store_base ≤ app_slot_addr slot)
      × (app_slot_addr slot + app_slot_size ≤ app_store_base + app_store_size)
unfolding app_slot_addr
app_slot_addr-bounds slot = omega arith
