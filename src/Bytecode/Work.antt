-- ===== src/Bytecode/Work.antt =====
-- The amount of work that the last loop of bytecode_verify (src/services/halaos_runtime.c) has before
-- it: each round takes one position from the queue, and what it adds had no depth.
use halaos_stm32f103_hardwar.Prelude.{
  ℕ, zero, suc, ◌+◌, ◌≤◌, ◌<◌, ◌≡◌, refl, sym, ap, ◌∙◌, true, ◌&&◌, Option, none, some, [], ◌∷◌,
  arith, ◌==◌, ltb, leb, if◌then◌else◌, update, inl, inr, Bool-cases, Option-cases, eqb→eq, length,
  length-append,
}
use halaos_stm32f103_hardwar.Bytecode.{
  Analysis, is_branch, is_call, falls_through, kind_at, target, next_at, seed, seed_loop, offer,
  offer_branch, offer_next, visit, entry,
}
use halaos_stm32f103_hardwar.Bytecode.Walk.{Walk, Walk-lt}
use halaos_stm32f103_hardwar.Bytecode.Seed.{enqueue, seed-new, seed-old}
use halaos_stm32f103_hardwar.Bytecode.Flow.{offer-new, offer-old, visit-split, offer_both-split}

-- How many positions below `n` have no depth.
abbrev pub weight : Option ℕ → ℕ
weight none = 1
weight (some d) = 0

pub unknown : ℕ → (ℕ → Option ℕ) → ℕ
unknown zero f = 0
unknown (suc n) f = weight (f n) + unknown n f

unknown-update_above :
    (n t d : ℕ) (f : ℕ → Option ℕ) → n ≤ t → unknown n (update f t (some d)) ≡ unknown n f
unfolding unknown
unknown-update_above zero t d f le = refl
unknown-update_above (suc n) t d f le =
    let r = unknown-update_above n t d f (omega arith) in ground arith

unknown-update :
    (n t d : ℕ) (f : ℕ → Option ℕ)
    → t < n
    → f t ≡ none
    → unknown n (update f t (some d)) + 1 ≡ unknown n f
unfolding unknown
unknown-update zero t d f lt new = absurd (omega arith)
unknown-update (suc n) t d f lt new = elim (Bool-cases (n == t)) [
  | inl same ↦
      let here = eqb→eq n t same in
      let r = unknown-update_above n t d f (omega arith) in
      let none_here : f n ≡ none = rw here new in ground arith
  | inr other ↦ let r = unknown-update n t d f (ground arith) new in ground arith
]

module _ (code : ℕ → ℕ) (size : ℕ) where
  abbrev pub work : Analysis → ℕ
  work a = unknown size a.depth + length a.pending

  enqueue-work :
      (t d : ℕ) (a : Analysis) → t < size → a.depth t ≡ none → work (enqueue t d a) ≡ work a
  enqueue-work t d a lt new =
      let e = unknown-update size t d a.depth lt new in
      let l = length-append a.pending (t ∷ []) in omega arith

  offer-work : (t d : ℕ) (a b : Analysis) → t < size → offer t d a ≡ some b → work b ≡ work a
  offer-work t d a b lt e = elim (Option-cases (a.depth t)) [
    | inl new ↦
        let same : enqueue t d a ≡ b = ground (arith, offer-new t d a new) in
        ap work (sym same) ∙ enqueue-work t d a lt new
    | inr (v, old) ↦ elim (Bool-cases (v == d)) [
      | inl equal ↦ ap work (ground (arith, offer-old t d v a old))
      | inr differ ↦ absurd (ground (arith, offer-old t d v a old))
    ]
  ]

  seed-work : (t : ℕ) (a : Analysis) → t < size → work (seed t a) ≡ work a
  seed-work t a lt = elim (Option-cases (a.depth t)) [
    | inl new ↦ ap work (seed-new t a new) ∙ enqueue-work t 0 a lt new
    | inr (v, old) ↦ ap work (seed-old t v a old)
  ]

  offer_branch-work :
      (at d : ℕ) (a b : Analysis)
      → (is_branch (kind_at code size at) ≡ true → target code size at < size)
      → offer_branch code size at d a ≡ some b
      → work b ≡ work a
  unfolding offer_branch
  offer_branch-work at d a b inside e = elim (Bool-cases (is_branch (kind_at code size at))) [
    | inl taken ↦ offer-work (target code size at) d a b (inside taken) (ground arith)
    | inr skipped ↦ ap work (ground arith)
  ]

  offer_next-work :
      (at d : ℕ) (a b : Analysis) → offer_next code size at d a ≡ some b → work b ≡ work a
  unfolding offer_next
  offer_next-work at d a b e =
      elim (Bool-cases (falls_through (kind_at code size at) && ltb (next_at code size at) size)) [
        | inl taken ↦ offer-work (next_at code size at) d a b (ground arith) (ground arith)
        | inr skipped ↦ ap work (ground arith)
      ]

  module _
      (targets : (at : ℕ)
        → Walk code size 0 at
        → is_branch (kind_at code size at) ≡ true
        → Walk code size 0 (target code size at)) where
    pub visit-work :
        (at : ℕ) (a c : Analysis)
        → Walk code size 0 at
        → visit code size at a ≡ some c
        → work c ≡ work a
    visit-work at a c w e =
        let (d, after, found, go, low, both) = visit-split code size targets at a c e in
        let (b, first, second) = offer_both-split code size targets at after a c both in
        offer_next-work at after b c second
        ∙ offer_branch-work at after a b (λ t. Walk-lt code size (targets at w t)) first

  pub seed_loop-work :
      (fuel pc : ℕ) (a : Analysis)
      → ((at : ℕ)
          → Walk code size pc at
          → is_call (kind_at code size at) ≡ true
          → target code size at < size)
      → work (seed_loop code size fuel pc a) ≡ work a
  unfolding seed_loop
  seed_loop-work zero pc a inside = refl
  seed_loop-work (suc f) pc a inside = elim (Bool-cases (leb size pc)) [
    | inl over ↦ rw over refl
    | inr more ↦
        let a' : Analysis =
          if is_call (kind_at code size pc) then seed (target code size pc) a else a in
        let r =
          seed_loop-work f (next_at code size pc) a'
            λ at w. inside at (Walk.there (ground arith) w) in
        rw more (
          r ∙ elim (Bool-cases (is_call (kind_at code size pc))) [
            | inl call ↦
                rw call
                  (seed-work (target code size pc) a (inside pc (Walk.here (ground arith)) call))
            | inr other ↦ rw other refl
          ])
  ]

unknown-all : (n : ℕ) → unknown n (λ i. none) ≡ n
unfolding unknown
unknown-all zero = refl
unknown-all (suc n) = ground (arith, unknown-all n)

pub entry-work : (code : ℕ → ℕ) (size : ℕ) → 0 < size → work code size entry ≡ size
entry-work code size pos =
    let u = unknown-update size 0 0 (λ i. none) pos refl in
    let all = unknown-all size in omega arith
