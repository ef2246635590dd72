-- ===== src/App/Scan.antt =====
-- app_scan (src/services/halaos_runtime.c) finds the application in use from the flash alone.
use halaos_stm32f103_hardwar.Prelude.{
  ℕ, ◌<◌, ◌≡◌, inl, inr, refl, sym, ap, ◌∙◌, Bool, true, false, ◌&&◌, none, some, ◌==◌,
  if◌then◌else◌, Bool-cases, eqb→eq, eqb→ne, arith,
}
use halaos_stm32f103_hardwar.App.{
  Flash, AppStore, Best, app_header_slot, app_verify_slot, newer, scan_slot, take_best, app_scan,
}
use halaos_stm32f103_hardwar.App.Local.{verify_parts}
use halaos_stm32f103_hardwar.App.Current.{IsCurrent}

abbrev valid : Flash → ℕ → Bool
valid m slot = (app_verify_slot m slot 0).0

abbrev sequence_of : Flash → ℕ → ℕ
sequence_of m slot = (app_header_slot m slot).sequence

valid_count : (m : Flash) (slot r : ℕ) → (app_verify_slot m slot r).0 ≡ valid m slot
valid_count m slot r = verify_parts m slot r ∙ sym (verify_parts m slot 0)

if-first :
    (b : Bool) (x y : Best) (r : ℕ)
    → (if◌then◌else◌ {A = Best × ℕ} b (x, r) (y, r)).0 ≡ (if b then x else y)
if-first true x y r = refl
if-first false x y r = refl

-- A round, by what it does to the best slot.
abbrev better : Flash → ℕ → Best → Best
better m slot best =
    if valid m slot && newer (sequence_of m slot) best
    then some (slot, sequence_of m slot)
    else best

scan_slot_best :
    (m : Flash) (slot r : ℕ) (best : Best) → (scan_slot m slot (best, r)).0 ≡ better m slot best
unfolding scan_slot
scan_slot_best m slot r best =
    if-first ((app_verify_slot m slot r).0 && newer (sequence_of m slot) best)
      (some (slot, sequence_of m slot)) best (app_verify_slot m slot r).1
    ∙ ap
        (λ v.
          if v && newer (sequence_of m slot) best then some (slot, sequence_of m slot) else best)
        (valid_count m slot r)

-- The two rounds together.
best_of_both :
    (a : AppStore)
    → IsCurrent a
    → better a.flash 1 (better a.flash 0 none) ≡ some (a.app_slot, a.compile_count)
unfolding newer
best_of_both a c =
    let m = a.flash in
    elim (Bool-cases (a.app_slot == 0)) [
      | inl zeroth ↦
          let here = eqb→eq a.app_slot 0 zeroth in
          let v0 : valid m 0 ≡ true = rw here at c.current in
          let s0 : sequence_of m 0 ≡ a.compile_count = rw here at c.sequence in
          rw (here, v0, s0)
            (elim (Bool-cases (valid m 1)) [
              | inl v1 ↦
                  let less : sequence_of m 1 < a.compile_count = (rw here at c.other) v1 in
                  rw v1 (ground arith)
              | inr v1 ↦ rw v1 refl
            ])
      | inr first ↦
          let here : a.app_slot ≡ 1 = omega (arith, c.slot, eqb→ne a.app_slot 0 first) in
          let v1 : valid m 1 ≡ true = rw here at c.current in
          let s1 : sequence_of m 1 ≡ a.compile_count = rw here at c.sequence in
          rw (here, v1, s1)
            (elim (Bool-cases (valid m 0)) [
              | inl v0 ↦
                  let less : sequence_of m 0 < a.compile_count = (rw here at c.other) v0 in
                  rw v0 (ground arith)
              | inr v0 ↦ rw v0 refl
            ])
    ]

-- Where the application in use is valid and newer than a valid one in the other slot, app_scan
-- finds it in the flash alone, whatever the globals hold: it succeeds, chooses that slot, its
-- sequence and its type, and leaves the flash alone.
pub app_scan-IsCurrent :
    (a x : AppStore)
    → IsCurrent a
    → x.flash ≡ a.flash
    → let (found, b) = app_scan x in
      (found ≡ true)
      × (b.app_slot ≡ a.app_slot)
      × (b.compile_count ≡ a.compile_count)
      × (b.app_type ≡ (app_header_slot a.flash a.app_slot).flags)
      × (b.flash ≡ a.flash)
unfolding app_scan take_best
app_scan-IsCurrent a x c same =
    let first = scan_slot x.flash 0 (none, x.rejects) in
    let best : (scan_slot x.flash 1 first).0 ≡ some (a.app_slot, a.compile_count) =
      scan_slot_best x.flash 1 first.1 first.0
      ∙ ap (better x.flash 1) (scan_slot_best x.flash 0 x.rejects none)
      ∙ rw same (best_of_both a c) in
    rw best (refl, refl, refl, rw same refl, same)
