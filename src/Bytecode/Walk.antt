-- ===== src/Bytecode/Walk.antt =====
-- The walks of bytecode_verify (src/services/halaos_runtime.c) over the instructions, and what each
-- of them establishes.
use halaos_stm32f103_hardwar.Prelude.{
  ℕ, zero, suc, ◌<◌, ◌≡◌, ◌⊎◌, refl, Bool, true, false, some, arith, ◌==◌, leb, update, inl, inr,
  Bool-cases, eqb→eq,
}
use halaos_stm32f103_hardwar.Bytecode.{
  has_target, kind_at, target, next_at, fits, mark_loop, check_targets,
}

module _ (code : ℕ → ℕ) (size : ℕ) where
  -- `at` is the start of an instruction of the walk from `pc` on.
  pub data Walk : ℕ → ℕ → Type 0 where
    here : {pc : ℕ} → pc < size → Walk pc pc
    there : {pc at : ℕ} → pc < size → Walk (next_at code size pc) at → Walk pc at

  pub Walk-lt : {pc at : ℕ} → Walk pc at → at < size
  Walk-lt (Walk.here lt) = lt
  Walk-lt (Walk.there lt w) = Walk-lt w

  -- The walk goes on behind each of its instructions.
  pub Walk-next :
      {pc at : ℕ} → Walk pc at → next_at code size at < size → Walk pc (next_at code size at)
  Walk-next (Walk.here lt) more = Walk.there lt (Walk.here more)
  Walk-next (Walk.there lt w) more = Walk.there lt (Walk-next w more)

  -- What the first walk establishes of each instruction.
  pub record Marked (pc : ℕ) (before after : ℕ → Bool) : Type 0 where
    pub sound : (at : ℕ) → after at ≡ true → (before at ≡ true) ⊎ Walk pc at
    pub fit : (at : ℕ) → Walk pc at → fits code size (kind_at code size at) at ≡ true

  pub Walk-cases :
      {pc at : ℕ} → Walk pc at → ((at ≡ pc) × (pc < size)) ⊎ Walk (next_at code size pc) at
  Walk-cases (Walk.here lt) = inl (refl, lt)
  Walk-cases (Walk.there lt w) = inr w

  pub Walk-end : {pc at : ℕ} → leb size pc ≡ true → ¬ Walk pc at
  Walk-end over (Walk.here lt) = absurd (ground arith)
  Walk-end over (Walk.there lt w) = absurd (ground arith)

  mark-cons :
      (pc : ℕ) (before after : ℕ → Bool)
      → leb size pc ≡ false
      → fits code size (kind_at code size pc) pc ≡ true
      → Marked (next_at code size pc) (update before pc true) after
      → Marked pc before after
  mark-cons pc before after more ok m = record {
    sound = λ at e. elim (m.sound at e) [
      | inl old ↦ elim (Bool-cases (at == pc)) [
        | inl same ↦ rw (eqb→eq at pc same) (inr (Walk.here (ground arith)))
        | inr other ↦ inl (ground arith)
      ]
      | inr w ↦ inr (Walk.there (ground arith) w)
    ];
    fit = λ at w. elim (Walk-cases w) [ inl (same, lt) ↦ rw same ok | inr w' ↦ m.fit at w' ];
  }

  pub mark_loop-Marked :
      (fuel pc : ℕ) (before after : ℕ → Bool)
      → mark_loop code size fuel pc before ≡ some after
      → Marked pc before after
  unfolding mark_loop
  mark_loop-Marked zero pc before after e = absurd (ground arith)
  mark_loop-Marked (suc f) pc before after e = elim (Bool-cases (leb size pc)) [
    | inl over ↦
        let same : some before ≡ some after = rw over at e in
        record { sound = λ at m. inl (ground arith); fit = λ at w. absurd (Walk-end over w) }
    | inr more ↦ elim (Bool-cases (fits code size (kind_at code size pc) pc)) [
      | inl ok ↦
          mark-cons pc before after more ok
            (mark_loop-Marked f (next_at code size pc) (update before pc true) after (ground arith))
      | inr bad ↦ absurd (ground arith)
    ]
  ]

  pub check_targets_sound :
      (fuel pc : ℕ) (boundary : ℕ → Bool) (at : ℕ)
      → check_targets code size fuel pc boundary ≡ true
      → Walk pc at
      → has_target (kind_at code size at) ≡ true
      → (target code size at < size) × (boundary (target code size at) ≡ true)
  unfolding check_targets
  check_targets_sound zero pc boundary at e w t = absurd (ground arith)
  check_targets_sound (suc f) pc boundary at e w t = elim (Walk-cases w) [
    | inl (same, lt) ↦
        let t' : has_target (kind_at code size pc) ≡ true = rw same at t in rw same (ground arith)
    | inr w' ↦ elim (Bool-cases (leb size pc)) [
      | inl over ↦ absurd (Walk-end over w)
      | inr more ↦ check_targets_sound f (next_at code size pc) boundary at (ground arith) w' t
    ]
  ]
