-- ===== src/Bytecode/Seed.antt =====
-- The third walk of bytecode_verify (src/services/halaos_runtime.c): the functions that are called.
use halaos_stm32f103_hardwar.Prelude.{
  ℕ, zero, suc, ◌+◌, ◌<◌, ◌≡◌, refl, sym, subst, ap, ◌∙◌, true, Option, none, some, [], ◌∷◌, ◌++◌,
  arith, ◌==◌, leb, if◌then◌else◌, update, inl, inr, Bool-cases, Option-cases, eqb→eq, eqb_refl,
  has, has-append,
}
use halaos_stm32f103_hardwar.Bytecode.{Analysis, is_call, kind_at, target, next_at, seed, seed_loop}
use halaos_stm32f103_hardwar.Bytecode.Walk.{Walk, Walk-cases, Walk-end}

-- Every depth is 0, of a position in `P`, and the position is in the queue.
abbrev pub IsSeeded : (ℕ → Type 0) → Analysis → Type 0
IsSeeded P a = (at d : ℕ) → a.depth at ≡ some d → (d ≡ 0) × P at × (has at a.pending ≡ true)

-- `b` has the depths of `a`, and perhaps more.
abbrev pub Extends : (ℕ → Option ℕ) → (ℕ → Option ℕ) → Type 0
Extends f g = (at d : ℕ) → f at ≡ some d → g at ≡ some d

-- A new position with its depth, behind the others.
abbrev pub enqueue : ℕ → ℕ → Analysis → Analysis
enqueue t d a = record { depth = update a.depth t (some d); pending = a.pending ++ t ∷ [] }

pub enqueue-Extends :
    (t v : ℕ) (a : Analysis) → a.depth t ≡ none → Extends a.depth (enqueue t v a).depth
enqueue-Extends t v a new at d e = elim (Bool-cases (at == t)) [
  | inl same ↦ absurd (ground (arith, eqb→eq at t same))
  | inr other ↦ rw other e
]

pub seed-new : (t : ℕ) (a : Analysis) → a.depth t ≡ none → seed t a ≡ enqueue t 0 a
unfolding seed
seed-new t a new = rw (new, seed) refl

pub seed-old : (t v : ℕ) (a : Analysis) → a.depth t ≡ some v → seed t a ≡ a
unfolding seed
seed-old t v a old = rw (old, seed) refl

seed-Extends : (t : ℕ) (a : Analysis) → Extends a.depth (seed t a).depth
seed-Extends t a = elim (Option-cases (a.depth t)) [
  | inl new ↦ rw (seed-new t a new) (enqueue-Extends t 0 a new)
  | inr (v, old) ↦ rw (seed-old t v a old) (λ at d e. e)
]

seed-depth : (P : ℕ → Type 0) (t : ℕ) (a : Analysis) → IsSeeded P a → (seed t a).depth t ≡ some 0
seed-depth P t a s = elim (Option-cases (a.depth t)) [
  | inl new ↦ rw (seed-new t a new, eqb_refl t) refl
  | inr (v, old) ↦ rw (seed-old t v a old) (old ∙ ap some (s t v old).0)
]

enqueue-IsSeeded :
    (P : ℕ → Type 0) (t : ℕ) (a : Analysis) → IsSeeded P a → P t → IsSeeded P (enqueue t 0 a)
enqueue-IsSeeded P t a s p at d e = elim (Bool-cases (at == t)) [
  | inl same ↦
      let here = eqb→eq at t same in
      (ground arith, subst P (sym here) p, has-append at a.pending (t ∷ []) ∙ ground arith)
  | inr other ↦
      let (zero_depth, q, queued) = s at d (ground arith) in
      (zero_depth, q, has-append at a.pending (t ∷ []) ∙ ground arith)
]

seed-IsSeeded : (P : ℕ → Type 0) (t : ℕ) (a : Analysis) → IsSeeded P a → P t → IsSeeded P (seed t a)
seed-IsSeeded P t a s p = elim (Option-cases (a.depth t)) [
  | inl new ↦ rw (seed-new t a new) (enqueue-IsSeeded P t a s p)
  | inr (v, old) ↦ rw (seed-old t v a old) s
]

module _ (code : ℕ → ℕ) (size : ℕ) (P : ℕ → Type 0) where
  -- What the walk leaves behind.
  pub record Seeds (pc : ℕ) (a b : Analysis) : Type 0 where
    pub seeded : IsSeeded P b
    pub extends : Extends a.depth b.depth
    pub calls :
        (at : ℕ)
        → Walk code size pc at
        → is_call (kind_at code size at) ≡ true
        → b.depth (target code size at) ≡ some 0

  call_step :
      (pc : ℕ) (a : Analysis)
      → IsSeeded P a
      → (is_call (kind_at code size pc) ≡ true → P (target code size pc))
      → let b = if is_call (kind_at code size pc) then seed (target code size pc) a else a in
        IsSeeded P b
        × Extends a.depth b.depth
        × (is_call (kind_at code size pc) ≡ true → b.depth (target code size pc) ≡ some 0)
  call_step pc a s p = elim (Bool-cases (is_call (kind_at code size pc))) [
    | inl call ↦
        let t : ℕ = target code size pc in
        rw call (seed-IsSeeded P t a s (p call), seed-Extends t a, λ c. seed-depth P t a s)
    | inr other ↦ rw other (s, (λ at d e. e), λ c. absurd (ground arith))
  ]

  pub seed_loop-Seeds :
      (fuel pc : ℕ) (a : Analysis)
      → size < pc + fuel
      → IsSeeded P a
      → ((at : ℕ)
          → Walk code size pc at
          → is_call (kind_at code size at) ≡ true
          → P (target code size at))
      → Seeds pc a (seed_loop code size fuel pc a)
  unfolding seed_loop
  seed_loop-Seeds zero pc a enough s p =
      let over : leb size pc ≡ true = ground arith in
      record {
        seeded = s;
        extends = λ at d e. e;
        calls = λ at w c. absurd (Walk-end code size over w);
      }
  seed_loop-Seeds (suc f) pc a enough s p = elim (Bool-cases (leb size pc)) [
    | inl over ↦ rw over (record {
      seeded = s;
      extends = λ at d e. e;
      calls = λ at w c. absurd (Walk-end code size over w);
    })
    | inr more ↦
        let a' : Analysis =
          if is_call (kind_at code size pc) then seed (target code size pc) a else a in
        let c = call_step pc a s (p pc (Walk.here (ground arith))) in
        let r =
          seed_loop-Seeds f (next_at code size pc) a' (omega arith) c.0
            λ at w. p at (Walk.there (ground arith) w) in
        rw more (record {
          seeded = r.seeded;
          extends = λ at d e. r.extends at d (c.1 at d e);
          calls = λ at w call. elim (Walk-cases code size w) [
            | inl (same, lt) ↦ rw same (r.extends (target code size pc) 0 (c.2 (rw same at call)))
            | inr w' ↦ r.calls at w' call
          ];
        })
  ]
