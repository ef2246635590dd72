-- ===== src/Bytecode/Refused.antt =====
-- The last loop of bytecode_verify (src/services/halaos_runtime.c): why it refuses a position.
use halaos_stm32f103_hardwar.Prelude.{
  ℕ, zero, suc, ◌<◌, ◌≡◌, ◌≢◌, ◌⊎◌, refl, subst, ap, ◌∙◌, true, ◌&&◌, Option, none, some, [], ◌∷◌,
  arith, ◌==◌, ltb, leb, if◌then◌else◌, inl, inr, Bool-cases, Option-cases, eqb→ne, has, has-append,
}
use halaos_stm32f103_hardwar.Bytecode.{
  Analysis, is_branch, is_call, falls_through, effect, kind_at, target, next_at, max_depth, offer,
  offer_branch, offer_next, offer_both, seed, seed_loop, visit, visit_with,
}
use halaos_stm32f103_hardwar.Bytecode.Seed.{enqueue, seed-new, seed-old}
use halaos_stm32f103_hardwar.Bytecode.Flow.{offer-new, offer-old}

-- Every position of the queue has a depth.
abbrev pub Queued : Analysis → Type 0
Queued a = (x : ℕ) → has x a.pending ≡ true → (d : ℕ) × (a.depth x ≡ some d)

enqueue-Queued : (t d : ℕ) (a : Analysis) → Queued a → Queued (enqueue t d a)
enqueue-Queued t d a q x m = elim (Bool-cases (x == t)) [
  | inl same ↦ (d, rw same refl)
  | inr other ↦
      let (e, found) = q x (ground (arith, has-append x a.pending (t ∷ []))) in (e, rw other found)
]

seed-Queued : (t : ℕ) (a : Analysis) → Queued a → Queued (seed t a)
seed-Queued t a q = elim (Option-cases (a.depth t)) [
  | inl new ↦ rw (seed-new t a new) (enqueue-Queued t 0 a q)
  | inr (v, old) ↦ rw (seed-old t v a old) q
]

offer-Queued : (t d : ℕ) (a b : Analysis) → Queued a → offer t d a ≡ some b → Queued b
offer-Queued t d a b q e = elim (Option-cases (a.depth t)) [
  | inl new ↦
      let same : enqueue t d a ≡ b = ground (arith, offer-new t d a new) in
      subst Queued same (enqueue-Queued t d a q)
  | inr (v, old) ↦ elim (Bool-cases (v == d)) [
    | inl equal ↦ let same : a ≡ b = ground (arith, offer-old t d v a old) in subst Queued same q
    | inr differ ↦ absurd (ground (arith, offer-old t d v a old))
  ]
]

-- An offer is refused where the position has another depth.
offer-none :
    (t d : ℕ) (a : Analysis) → offer t d a ≡ none → (v : ℕ) × (a.depth t ≡ some v) × (v ≢ d)
offer-none t d a e = elim (Option-cases (a.depth t)) [
  | inl new ↦ absurd (ground (arith, offer-new t d a new))
  | inr (v, old) ↦ elim (Bool-cases (v == d)) [
    | inl equal ↦ absurd (ground (arith, offer-old t d v a old))
    | inr differ ↦ (v, old, eqb→ne v d differ)
  ]
]

module _ (code : ℕ → ℕ) (size : ℕ) where
  pub seed_loop-Queued :
      (fuel pc : ℕ) (a : Analysis) → Queued a → Queued (seed_loop code size fuel pc a)
  unfolding seed_loop
  seed_loop-Queued zero pc a q = q
  seed_loop-Queued (suc f) pc a q = elim (Bool-cases (leb size pc)) [
    | inl over ↦ rw over q
    | inr more ↦
        let a' : Analysis =
          if is_call (kind_at code size pc) then seed (target code size pc) a else a in
        let q' : Queued a' = elim (Bool-cases (is_call (kind_at code size pc))) [
          | inl call ↦ rw call (seed-Queued (target code size pc) a q)
          | inr other ↦ rw other q
        ] in
        rw more (seed_loop-Queued f (next_at code size pc) a' q')
  ]

  pub offer_branch-Queued :
      (at d : ℕ) (a b : Analysis) → Queued a → offer_branch code size at d a ≡ some b → Queued b
  unfolding offer_branch
  offer_branch-Queued at d a b q e = elim (Bool-cases (is_branch (kind_at code size at))) [
    | inl taken ↦ offer-Queued (target code size at) d a b q (ground arith)
    | inr skipped ↦ let same : a ≡ b = ground arith in subst Queued same q
  ]

  pub offer_next-Queued :
      (at d : ℕ) (a b : Analysis) → Queued a → offer_next code size at d a ≡ some b → Queued b
  unfolding offer_next
  offer_next-Queued at d a b q e =
      elim (Bool-cases (falls_through (kind_at code size at) && ltb (next_at code size at) size)) [
        | inl taken ↦ offer-Queued (next_at code size at) d a b q (ground arith)
        | inr skipped ↦ let same : a ≡ b = ground arith in subst Queued same q
      ]

  -- `t` can come after `at`.
  abbrev pub Edge : ℕ → ℕ → Type 0
  Edge at t =
      ((is_branch (kind_at code size at) ≡ true) × (t ≡ target code size at))
      ⊎ ((falls_through (kind_at code size at) ≡ true)
          × (t ≡ next_at code size at)
          × (next_at code size at < size))

  -- Position `at` at the depths `f` cannot be: it takes more operands than there are, or returns
  -- with another number than one; or it leaves more than the stack holds; or a position after it
  -- has another depth.
  abbrev pub Refused : ℕ → (ℕ → Option ℕ) → Type 0
  Refused at f =
      (d : ℕ) × (f at ≡ some d)
      × ((effect (kind_at code size at) d ≡ none)
          ⊎ ((after : ℕ) × (effect (kind_at code size at) d ≡ some after)
              × ((max_depth < after)
                  ⊎ ((t : ℕ) × Edge at t × (v : ℕ) × (f t ≡ some v) × (v ≢ after)))))

  abbrev Conflict : ℕ → ℕ → (ℕ → Option ℕ) → Type 0
  Conflict at after f = (t : ℕ) × Edge at t × (v : ℕ) × (f t ≡ some v) × (v ≢ after)

  offer_branch-none :
      (at after : ℕ) (a : Analysis)
      → offer_branch code size at after a ≡ none
      → Conflict at after a.depth
  unfolding offer_branch
  offer_branch-none at after a e = elim (Bool-cases (is_branch (kind_at code size at))) [
    | inl taken ↦
        let (v, found, differ) = offer-none (target code size at) after a (ground arith) in
        (target code size at, inl (taken, refl), v, found, differ)
    | inr skipped ↦ absurd (ground arith)
  ]

  -- A depth behind the first offer that is not `after` was there before.
  offer_old :
      (t after x v : ℕ) (a b : Analysis)
      → offer t after a ≡ some b
      → b.depth x ≡ some v
      → v ≢ after
      → a.depth x ≡ some v
  offer_old t after x v a b e found differ = elim (Option-cases (a.depth t)) [
    | inl new ↦
        let same : enqueue t after a ≡ b = ground (arith, offer-new t after a new) in
        let before : (enqueue t after a).depth x ≡ some v =
          ap (λ (c : Analysis). c.depth x) same ∙ found in
        elim (Bool-cases (x == t)) [
          | inl here ↦
              let fresh : some after ≡ some v = rw here at before in absurd (differ (ground arith))
          | inr other ↦ rw other at before
        ]
    | inr (w, old) ↦ elim (Bool-cases (w == after)) [
      | inl equal ↦
          let same : a ≡ b = ground (arith, offer-old t after w a old) in
          ap (λ (c : Analysis). c.depth x) same ∙ found
      | inr apart ↦ absurd (ground (arith, offer-old t after w a old))
    ]
  ]

  offer_branch_old :
      (at after x v : ℕ) (a b : Analysis)
      → offer_branch code size at after a ≡ some b
      → b.depth x ≡ some v
      → v ≢ after
      → a.depth x ≡ some v
  unfolding offer_branch
  offer_branch_old at after x v a b e found differ =
      elim (Bool-cases (is_branch (kind_at code size at))) [
        | inl taken ↦ offer_old (target code size at) after x v a b (ground arith) found differ
        | inr skipped ↦
            let same : a ≡ b = ground arith in ap (λ (c : Analysis). c.depth x) same ∙ found
      ]

  offer_next-none :
      (at after : ℕ) (a b : Analysis)
      → offer_branch code size at after a ≡ some b
      → offer_next code size at after b ≡ none
      → Conflict at after a.depth
  unfolding offer_next
  offer_next-none at after a b first e =
      elim (Bool-cases (falls_through (kind_at code size at) && ltb (next_at code size at) size)) [
        | inl taken ↦
            let n : ℕ = next_at code size at in
            let (v, found, differ) = offer-none n after b (ground arith) in
            (
              n,
              inr (ground arith, refl, ground arith),
              v,
              offer_branch_old at after n v a b first found differ,
              differ,
            )
        | inr skipped ↦ absurd (ground arith)
      ]

  offer_both-none :
      (at after : ℕ) (a : Analysis)
      → offer_both code size at after a ≡ none
      → Conflict at after a.depth
  unfolding offer_both
  offer_both-none at after a e = elim (Option-cases (offer_branch code size at after a)) [
    | inl stop ↦ offer_branch-none at after a stop
    | inr (b, go) ↦ offer_next-none at after a b go (ground arith)
  ]

  pub visit-none :
      (at d : ℕ) (a : Analysis)
      → a.depth at ≡ some d
      → visit code size at a ≡ none
      → Refused at a.depth
  unfolding visit visit_with
  visit-none at d a found e = (
    d,
    found,
    elim (Option-cases (effect (kind_at code size at) d)) [
      | inl stop ↦ inl stop
      | inr (after, go) ↦ inr (
        after,
        go,
        elim (Bool-cases (ltb max_depth after)) [
          | inl high ↦ inl (ground arith)
          | inr low ↦ inr (offer_both-none at after a (ground arith))
        ],
      )
    ],
  )
