-- ===== src/Ring.antt =====
-- Ring buffers, as the pipe of src/services/halaos_runtime.c and the receive ring of
-- src/kernel/halaos_kernel.c keep them: an array, and positions that wrap around at its size.
use halaos_stm32f103_hardwar.Prelude.{
  ℕ, ◌+◌, ◌-◌, ◌<◌, ◌≡◌, false, List, [], ◌∷◌, ◌++◌, arith, ◌==◌, ltb, if◌then◌else◌, update,
  length,
}

-- A position that is at most one round too far.
abbrev pub wrap : ℕ → ℕ → ℕ
wrap size p = if ltb p size then p else p - size

-- From `pos` on the cells of the array hold the list.
abbrev pub Cells : ℕ → (ℕ → ℕ) → ℕ → List ℕ → Type 0
Cells size f pos [] = Unit
Cells size f pos (v ∷ q) = (f pos ≡ v) × Cells size f (wrap size (pos + 1)) q

module _ (size : ℕ) (f : ℕ → ℕ) where
  pub Cells-append_one :
      (pos w v : ℕ) (q : List ℕ)
      → pos < size
      → length q < size
      → w ≡ wrap size (pos + length q)
      → Cells size f pos q
      → Cells size (update f w v) pos (q ++ v ∷ [])
  Cells-append_one pos w v [] lt small e c = (ground arith, tt)
  Cells-append_one pos w v (x ∷ q) lt small e (here, c) =
      let apart : (pos == w) ≡ false = ground arith in
      (
        rw apart here,
        Cells-append_one (wrap size (pos + 1)) w v q (ground arith) (omega arith) (ground arith) c,
      )
