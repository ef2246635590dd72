-- ===== src/App/Readback.antt =====
-- What app_write (src/services/halaos_runtime.c) programs is read back.
use halaos_stm32f103_hardwar.Prelude.{
  ℕ, zero, suc, ◌+◌, ◌*◌, ◌<◌, ◌≡◌, inl, inr, refl, ◌∙◌, Bool, true, false, not, ◌&&◌, Option, none,
  some, List, [], ◌∷◌, ◌==◌, leb, if◌then◌else◌, if-cases, Bool-cases, eqb→eq, eqb→ne, arith,
}
use halaos_stm32f103_hardwar.App.{Flash, FlashPart, app_header_size, erased_half}
use halaos_stm32f103_hardwar.App.Write.{program_halves, code_loop, staged}

next_index : (i x : ℕ) → i + 2 + 2 * x ≡ i + 2 * suc x
next_index i x = omega arith

-- Offset `k` is in none of the half-words.
abbrev pub absent : ℕ → List (ℕ × ℕ) → Bool
absent k [] = true
absent k ((o, v) ∷ rest) = not (k == o) && absent k rest

abbrev pub all_distinct : List (ℕ × ℕ) → Bool
all_distinct [] = true
all_distinct ((o, v) ∷ rest) = absent o rest && all_distinct rest

abbrev pub find : ℕ → List (ℕ × ℕ) → Option ℕ
find k [] = none
find k ((o, v) ∷ rest) = if k == o then some v else find k rest

module _ (part : FlashPart) (base : ℕ) where
  program_elsewhere :
      (k o v : ℕ) (m : Flash)
      → (k == o) ≡ false
      → part.program_half (base + o) v m (base + k) ≡ m (base + k)
  program_elsewhere k o v m other =
      part.program_other (base + o) v (base + k) m (λ e. eqb→ne k o other (omega arith))

  pub program_halves-absent :
      (k : ℕ) (ws : List (ℕ × ℕ)) (m : Flash)
      → absent k ws ≡ true
      → program_halves part base ws m (base + k) ≡ m (base + k)
  unfolding program_halves
  program_halves-absent k [] m a = refl
  program_halves-absent k ((o, v) ∷ rest) m a =
      program_halves-absent k rest (part.program_half (base + o) v m) (ground arith)
      ∙ program_elsewhere k o v m (ground arith)

  pub program_halves_found :
      (k v : ℕ) (ws : List (ℕ × ℕ)) (m : Flash)
      → all_distinct ws ≡ true
      → m (base + k) ≡ erased_half
      → find k ws ≡ some v
      → program_halves part base ws m (base + k) ≡ v
  unfolding program_halves
  program_halves_found k v [] m d clean e = absurd (ground arith)
  program_halves_found k v ((o, w) ∷ rest) m d clean e = elim (Bool-cases (k == o)) [
    | inl here ↦
        let same : k ≡ o = eqb→eq k o here in
        let value : w ≡ v = ground arith in
        rw same (
          program_halves-absent o rest (part.program_half (base + o) w m) (ground arith)
          ∙ part.program_same (base + o) w m (inl (rw same at clean))
          ∙ value)
    | inr other ↦
        program_halves_found k v rest (part.program_half (base + o) w m) (ground arith)
          (program_elsewhere k o w m other ∙ clean) (ground arith)
  ]

  module _ (code : ℕ → ℕ) (size stage : ℕ) where
    abbrev pub half_of : ℕ → ℕ
    half_of i = staged code size i + staged code size (i + 1) * 256

    pub code_loop_below :
        (n i k : ℕ) (m : Flash)
        → k < app_header_size + i
        → (code_loop part code size base stage n i m).1 (base + k) ≡ m (base + k)
    unfolding code_loop
    code_loop_below zero i k m lt = refl
    code_loop_below (suc n) i k m lt =
        let o : ℕ = app_header_size + i in
        let here = program_elsewhere k o (half_of i) m (ground arith) in
        if-cases (λ (x : Bool × Flash). x.1 (base + k) ≡ m (base + k)) ((stage == 3) && leb 2 i) _ _
          (λ t. here)
          λ t.
            code_loop_below n (i + 2) k (part.program_half (base + o) (half_of i) m) (omega arith)
            ∙ here

    pub code_loop_found :
        (n i j : ℕ) (m : Flash)
        → (code_loop part code size base stage n i m).0 ≡ true
        → ((x : ℕ) → x < n → m (base + (app_header_size + (i + 2 * x))) ≡ erased_half)
        → j < n
        → (code_loop part code size base stage n i m).1 (base + (app_header_size + (i + 2 * j)))
          ≡ half_of (i + 2 * j)
    unfolding code_loop
    code_loop_found zero i j m finished clean lt = absurd (omega arith)
    code_loop_found (suc n) i zero m finished clean lt =
        let o : ℕ = app_header_size + i in
        let m' : Flash = part.program_half (base + o) (half_of i) m in
        let index : i + 2 * 0 ≡ i = omega arith in
        let erased : m (base + o) ≡ erased_half = rw index at (clean 0 (omega arith)) in
        rw index (
          if-cases (λ (x : Bool × Flash). x.0 ≡ true → x.1 (base + o) ≡ half_of i)
            ((stage == 3) && leb 2 i) _ _ (λ t f. absurd (ground arith))
            (λ t f.
              code_loop_below n (i + 2) o m' (omega arith)
              ∙ part.program_same (base + o) (half_of i) m (inl erased))
            finished)
    code_loop_found (suc n) i (suc j) m finished clean lt =
        let o : ℕ = app_header_size + i in
        let m' : Flash = part.program_half (base + o) (half_of i) m in
        if-cases
          (λ (x : Bool × Flash).
            x.0 ≡ true → x.1 (base + (app_header_size + (i + 2 * suc j))) ≡ half_of (i + 2 * suc j))
          ((stage == 3) && leb 2 i) _ _ (λ t f. absurd (ground arith))
          (λ t f. rw (next_index i j) at (
            code_loop_found n (i + 2) j m' f
              (λ x less. rw (next_index i x) (
                program_elsewhere (app_header_size + (i + 2 * suc x)) o (half_of i) m (ground arith)
                ∙ clean (suc x) (omega arith)))
              (omega arith)))
          finished
