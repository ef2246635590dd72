-- ===== src/Bytecode/Flow.antt =====
-- The last loop of bytecode_verify (src/services/halaos_runtime.c): the depths of the operand stack
-- agree along every edge of the program.
use halaos_stm32f103_hardwar.Prelude.{
  ℕ, ◌≤◌, ◌<◌, ◌≡◌, ◌⊎◌, refl, sym, subst, ap, ◌∙◌, true, ◌&&◌, Option, none, some, [], ◌∷◌, arith,
  ◌==◌, ltb, if◌then◌else◌, inl, inr, Bool-cases, Option-cases, eqb→eq, eqb_refl, has, has-append,
}
use halaos_stm32f103_hardwar.Bytecode.{
  Analysis, max_depth, is_branch, falls_through, effect, offer, kind_at, target, next_at,
  offer_branch, offer_next, offer_both, visit_with, visit,
}
use halaos_stm32f103_hardwar.Bytecode.Walk.{Walk, Walk-next}
use halaos_stm32f103_hardwar.Bytecode.Seed.{Extends, enqueue, enqueue-Extends}

-- What an offer that is not rejected does: the position has that depth, no depth changes, and what
-- is new is in the queue.
record Offered (at d : ℕ) (a b : Analysis) : Type 0 where
  found : b.depth at ≡ some d
  extends : Extends a.depth b.depth
  news :
      (x e : ℕ) → b.depth x ≡ some e → (a.depth x ≡ some e) ⊎ ((x ≡ at) × (has x b.pending ≡ true))
  queued : (x : ℕ) → has x a.pending ≡ true → has x b.pending ≡ true

pub offer-new : (t d : ℕ) (a : Analysis) → a.depth t ≡ none → offer t d a ≡ some (enqueue t d a)
unfolding offer
offer-new t d a new = rw (new, offer) refl

pub offer-old :
    (t d e : ℕ) (a : Analysis)
    → a.depth t ≡ some e
    → offer t d a ≡ (if e == d then some a else none)
unfolding offer
offer-old t d e a old = rw (old, offer) refl

enqueue-Offered : (t d : ℕ) (a : Analysis) → a.depth t ≡ none → Offered t d a (enqueue t d a)
enqueue-Offered t d a new = record {
  found = rw (eqb_refl t) refl;
  extends = enqueue-Extends t d a new;
  news = λ x e h. elim (Bool-cases (x == t)) [
    | inl same ↦ inr (eqb→eq x t same, has-append x a.pending (t ∷ []) ∙ ground arith)
    | inr other ↦ inl (ground arith)
  ];
  queued = λ x m. has-append x a.pending (t ∷ []) ∙ ground arith;
}

offer-Offered : (t d : ℕ) (a b : Analysis) → offer t d a ≡ some b → Offered t d a b
offer-Offered t d a b e = elim (Option-cases (a.depth t)) [
  | inl new ↦
      let same : enqueue t d a ≡ b = ground (arith, offer-new t d a new) in
      subst (λ c. Offered t d a c) same (enqueue-Offered t d a new)
  | inr (v, old) ↦ elim (Bool-cases (v == d)) [
    | inl equal ↦
        let same : a ≡ b = ground (arith, offer-old t d v a old) in
        subst (λ c. Offered t d a c) same
          (record {
            found = old ∙ ap some (eqb→eq v d equal);
            extends = λ x e h. h;
            news = λ x e h. inl h;
            queued = λ x m. m;
          })
    | inr differ ↦ absurd (ground (arith, offer-old t d v a old))
  ]
]

module _ (code : ℕ → ℕ) (size : ℕ) (depth : ℕ → Option ℕ) where
  -- The depths at and behind the instruction at `at`, whose depth is `d`.
  pub record Agrees (at d : ℕ) : Type 0 where
    pub after : ℕ
    pub effect_of : effect (kind_at code size at) d ≡ some after
    pub low : after ≤ max_depth
    pub branch : is_branch (kind_at code size at) ≡ true → depth (target code size at) ≡ some after
    pub fall :
        falls_through (kind_at code size at) ≡ true
        → next_at code size at < size
        → depth (next_at code size at) ≡ some after

pub Agrees-Extends :
    (code : ℕ → ℕ) (size : ℕ) (f g : ℕ → Option ℕ) (at d : ℕ)
    → Extends f g
    → Agrees code size f at d
    → Agrees code size g at d
Agrees-Extends code size f g at d more a = record {
  after = a.after;
  effect_of = a.effect_of;
  low = a.low;
  branch = λ b. more (target code size at) a.after (a.branch b);
  fall = λ b lt. more (next_at code size at) a.after (a.fall b lt);
}

module _ (code : ℕ → ℕ) (size : ℕ) where
  -- One round keeps the depths, and what is new is in the queue and on the walk.
  pub record Grown (a b : Analysis) : Type 0 where
    pub extends : Extends a.depth b.depth
    pub news :
        (x e : ℕ)
        → b.depth x ≡ some e
        → (a.depth x ≡ some e) ⊎ (Walk code size 0 x × (has x b.pending ≡ true))
    pub queued : (x : ℕ) → has x a.pending ≡ true → has x b.pending ≡ true

  Grown-refl : (a : Analysis) → Grown a a
  Grown-refl a = record { extends = λ x e h. h; news = λ x e h. inl h; queued = λ x m. m }

  Grown-trans : (a b c : Analysis) → Grown a b → Grown b c → Grown a c
  Grown-trans a b c f g = record {
    extends = λ x e h. g.extends x e (f.extends x e h);
    news = λ x e h. elim (g.news x e h) [
      | inl old ↦ elim (f.news x e old) [
        | inl older ↦ inl older
        | inr (w, m) ↦ inr (w, g.queued x m)
      ]
      | inr new ↦ inr new
    ];
    queued = λ x m. g.queued x (f.queued x m);
  }

  Offered-Grown : (at d : ℕ) (a b : Analysis) → Walk code size 0 at → Offered at d a b → Grown a b
  Offered-Grown at d a b w o = record {
    extends = o.extends;
    news = λ x e h. elim (o.news x e h) [
      | inl old ↦ inl old
      | inr (same, m) ↦ inr (subst (λ y. Walk code size 0 y) (sym same) w, m)
    ];
    queued = o.queued;
  }

  module _
      (targets : (at : ℕ)
        → Walk code size 0 at
        → is_branch (kind_at code size at) ≡ true
        → Walk code size 0 (target code size at)) where
    offer_branch-Grown :
        (at d : ℕ) (a b : Analysis)
        → Walk code size 0 at
        → offer_branch code size at d a ≡ some b
        → Grown a b
          × (is_branch (kind_at code size at) ≡ true → b.depth (target code size at) ≡ some d)
    unfolding offer_branch
    offer_branch-Grown at d a b w e = elim (Bool-cases (is_branch (kind_at code size at))) [
      | inl taken ↦
          let o = offer-Offered (target code size at) d a b (ground arith) in
          (Offered-Grown (target code size at) d a b (targets at w taken) o, λ y. o.found)
      | inr skipped ↦
          let same : a ≡ b = ground arith in
          (subst (λ c. Grown a c) same (Grown-refl a), λ y. absurd (ground arith))
    ]

    offer_next-Grown :
        (at d : ℕ) (a b : Analysis)
        → Walk code size 0 at
        → offer_next code size at d a ≡ some b
        → Grown a b
          × (falls_through (kind_at code size at) ≡ true
              → next_at code size at < size
              → b.depth (next_at code size at) ≡ some d)
    unfolding offer_next
    offer_next-Grown at d a b w e =
        elim (Bool-cases
          (falls_through (kind_at code size at) && ltb (next_at code size at) size)) [
            | inl taken ↦
                let n : ℕ = next_at code size at in
                let o = offer-Offered n d a b (ground arith) in
                (Offered-Grown n d a b (Walk-next code size w (ground arith)) o, λ y lt. o.found)
            | inr skipped ↦
                let same : a ≡ b = ground arith in
                (subst (λ c. Grown a c) same (Grown-refl a), λ y lt. absurd (ground arith))
          ]

    pub offer_both-split :
        (at d : ℕ) (a c : Analysis)
        → offer_both code size at d a ≡ some c
        → (b : Analysis) × (offer_branch code size at d a ≡ some b)
          × (offer_next code size at d b ≡ some c)
    unfolding offer_both
    offer_both-split at d a c e = elim (Option-cases (offer_branch code size at d a)) [
      | inl stop ↦ absurd (ground arith)
      | inr (b, go) ↦ (b, go, ground arith)
    ]

    pub visit-split :
        (at : ℕ) (a c : Analysis)
        → visit code size at a ≡ some c
        → (d after : ℕ) × (a.depth at ≡ some d)
          × (effect (kind_at code size at) d ≡ some after)
          × (after ≤ max_depth)
          × (offer_both code size at after a ≡ some c)
    unfolding visit visit_with
    visit-split at a c e = elim (Option-cases (a.depth at)) [
      | inl none_found ↦ absurd (ground arith)
      | inr (d, found) ↦ elim (Option-cases (effect (kind_at code size at) d)) [
        | inl stop ↦ absurd (ground arith)
        | inr (after, go) ↦ elim (Bool-cases (ltb max_depth after)) [
          | inl high ↦ absurd (ground arith)
          | inr low ↦ (d, after, found, go, ground arith, ground arith)
        ]
      ]
    ]

    pub visit-Agrees :
        (at : ℕ) (a c : Analysis)
        → Walk code size 0 at
        → visit code size at a ≡ some c
        → (d : ℕ) × (a.depth at ≡ some d) × Agrees code size c.depth at d × Grown a c
    visit-Agrees at a c w e =
        let (d, after, found, go, low, both) = visit-split at a c e in
        let (b, first, second) = offer_both-split at after a c both in
        let f = offer_branch-Grown at after a b w first in
        let s = offer_next-Grown at after b c w second in
        (
          d,
          found,
          record {
            after = after;
            effect_of = go;
            low = low;
            branch = λ y. s.0.extends (target code size at) after (f.1 y);
            fall = s.1;
          },
          Grown-trans a b c f.0 s.0,
        )
