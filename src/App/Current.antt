-- ===== src/App/Current.antt =====
-- The current application of the store, which app_write (src/services/halaos_runtime.c) leaves
-- alone.
use halaos_stm32f103_hardwar.Prelude.{
  ℕ, ◌+◌, ◌-◌, ◌%◌, ◌<◌, ◌≡◌, inl, inr, ap, ◌∙◌, true, false, List, ◌==◌, arith, u32_mod, inc32,
}
use halaos_stm32f103_hardwar.Boundary.{app_slot_addr, app_slot_count}
use halaos_stm32f103_hardwar.App.{
  Flash, FlashPart, AppHeader, AppStore, status_valid, app_header_slot, app_verify_slot,
}
use halaos_stm32f103_hardwar.App.Outside.{app_write-InUse}
use halaos_stm32f103_hardwar.App.Write.{app_write}
use halaos_stm32f103_hardwar.App.Local.{
  SameSlot, verify_parts, app_verify_slot_local, app_header_slot_local, header_fits,
}
use halaos_stm32f103_hardwar.App.Leaves.{app_write-Leaves}

-- The other slot.
abbrev pub other_slot : ℕ → ℕ
other_slot slot = 1 - slot

-- The application in use is valid, and newer than a valid one in the other slot.
pub record IsCurrent (a : AppStore) : Type 0 where
  pub slot : a.app_slot ≡ a.compile_count % app_slot_count
  pub current : (app_verify_slot a.flash a.app_slot 0).0 ≡ true
  pub sequence : (app_header_slot a.flash a.app_slot).sequence ≡ a.compile_count
  pub other :
      (app_verify_slot a.flash (other_slot a.app_slot) 0).0 ≡ true
      → (app_header_slot a.flash (other_slot a.app_slot)).sequence < a.compile_count

pub not_valid :
    (m : Flash) (slot : ℕ)
    → (m (app_slot_addr slot) == status_valid) ≡ false
    → (app_verify_slot m slot 0).0 ≡ false
unfolding header_fits app_header_slot
not_valid m slot e = verify_parts m slot 0 ∙ ground arith

module _ (part : FlashPart) (code : ℕ → ℕ) (size flags : ℕ) (name : List ℕ)
    (small : (i : ℕ) → code i < 256) (a : AppStore) (room : a.compile_count + 1 < u32_mod)
    (c : IsCurrent a) where
  abbrev written : ℕ × AppStore
  written = app_write part code size flags name a

  pub new_slot : inc32 a.compile_count % app_slot_count ≡ other_slot a.app_slot
  new_slot = omega (arith, c.slot)

  -- The old application is still the current one of the flash.
  pub kept-IsCurrent : IsCurrent (record a { flash = written.1.flash })
  kept-IsCurrent =
      let same : SameSlot a.app_slot a.flash written.1.flash =
        (app_write-InUse part code size flags name a (omega arith) c.slot).0 in
      record {
        slot = c.slot;
        current = app_verify_slot_local a.flash written.1.flash a.app_slot 0 same ∙ c.current;
        sequence =
            ap (λ (h : AppHeader). h.sequence)
              (app_header_slot_local a.flash written.1.flash a.app_slot same)
            ∙ c.sequence;
        other = λ v. elim (app_write-Leaves part code size flags name small a).spoilt [
          | inl flash ↦ rw flash (c.other (rw flash at v))
          | inr status ↦ absurd (
              ground (
                arith,
                v,
                not_valid written.1.flash (other_slot a.app_slot) (rw new_slot at status),
              ))
        ];
      }
