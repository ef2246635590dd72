-- ===== src/Dispatch/Least.antt =====
-- A scan for the first least key, as the loops of pick_deadline and pick_fair make it.
use halaos_stm32f103_hardwar.Prelude.{
  ℕ, ◌+◌, ◌≤◌, ◌<◌, ◌≡◌, refl, ◌⊎◌, ◌&&◌, inl, inr, Bool, true, false, arith, ◌==◌, ltb,
  if◌then◌else◌, Bool-cases, eqb→eq, eqb→ne,
}
use halaos_stm32f103_hardwar.Chain.{invalid_idx}

module _ (p : ℕ → Bool) (key : ℕ → ℕ) (top : ℕ) where
  -- A candidate with a key below `top`.
  abbrev pub is_candidate : ℕ → Bool
  is_candidate j = p j && ltb (key j) top

  -- `best` is the first of the candidates below `n` with the least key.
  pub record IsLeast (n best : ℕ) : Type 0 where
    pub below : best < n
    pub eligible : is_candidate best ≡ true
    pub least : (j : ℕ) → j < n → is_candidate j ≡ true → key best ≤ key j
    pub first : (j : ℕ) → j < best → is_candidate j ≡ true → key best < key j

  abbrev pub NoneBelow : ℕ → Type 0
  NoneBelow n = (j : ℕ) → j < n → is_candidate j ≡ false

  -- The two variables of the scan when the indices below `n` are done.
  abbrev pub Best : ℕ → ℕ → ℕ → Type 0
  Best n best d =
      ((best ≡ invalid_idx) × (d ≡ top) × NoneBelow n) ⊎ (IsLeast n best × (d ≡ key best))

  abbrev pub better : ℕ → ℕ → Bool
  better i d = p i && ltb (key i) d

  none-step : (n : ℕ) → NoneBelow n → is_candidate n ≡ false → NoneBelow (n + 1)
  none-step n none e j lt = elim (Bool-cases (j == n)) [
    | inl same ↦ rw (eqb→eq j n same) e
    | inr other ↦ none j (omega (arith, eqb→ne j n other))
  ]

  new-IsLeast :
      (n : ℕ)
      → is_candidate n ≡ true
      → ((j : ℕ) → j < n → is_candidate j ≡ true → key n < key j)
      → IsLeast (n + 1) n
  new-IsLeast n e before = record {
    below = omega arith;
    eligible = e;
    least = λ j lt ej. elim (Bool-cases (j == n)) [
      | inl same ↦ rw (eqb→eq j n same) (omega arith)
      | inr other ↦ omega (arith, before j (omega (arith, eqb→ne j n other)) ej)
    ];
    first = before;
  }

  old-IsLeast :
      (n best : ℕ)
      → IsLeast n best
      → (is_candidate n ≡ true → key best ≤ key n)
      → IsLeast (n + 1) best
  old-IsLeast n best l at = record {
    below = omega (arith, l.below);
    eligible = l.eligible;
    least = λ j lt ej. elim (Bool-cases (j == n)) [
      | inl same ↦ rw (eqb→eq j n same) (at (rw (← eqb→eq j n same) ej))
      | inr other ↦ l.least j (omega (arith, eqb→ne j n other)) ej
    ];
    first = l.first;
  }

  pub step-Best :
      (n best d : ℕ)
      → Best n best d
      → Best (n + 1) (if better n d then n else best) (if better n d then key n else d)
  step-Best n best d (inl (e, t, none)) = elim (Bool-cases (better n d)) [
    | inl better' ↦
        rw better' (inr (new-IsLeast n (ground arith) (λ j lt ej. cc (none j lt)), refl))
    | inr worse ↦ rw worse (inl (e, t, none-step n none (ground arith)))
  ]
  step-Best n best d (inr (l, e)) = elim (Bool-cases (better n d)) [
    | inl better' ↦ rw better' (
        inr (
          new-IsLeast n (ground (arith, l.eligible)) (λ j lt ej. ground (arith, l.least j lt ej)),
          refl,
        ))
    | inr worse ↦ rw worse (inr (old-IsLeast n best l (λ en. ground arith), e))
  ]
