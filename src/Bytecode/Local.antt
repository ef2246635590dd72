-- ===== src/Bytecode/Local.antt =====
-- bytecode_verify (src/services/halaos_runtime.c) reads the code within its size only.
use halaos_stm32f103_hardwar.Prelude.{
  ℕ, zero, suc, ◌+◌, ◌<◌, ◌≡◌, refl, sym, ap, ap₂, ◌∙◌, Bool, true, false, ◌&&◌, ◌||◌, none, some,
  arith, ◌==◌, ltb, leb, if◌then◌else◌, update, inl, inr, Bool-cases, Option-cases,
}
use halaos_stm32f103_hardwar.Bytecode.{
  Analysis, is_branch, is_call, falls_through, has_target, kind_at, target, next_at, fits,
  max_depth, effect, mark_loop, check_targets, seed, seed_loop, offer, offer_branch, offer_next,
  offer_both, visit, visit_with, work_loop, entry, analyse, analyse_with, flow_with,
  bytecode_verify, max_code,
}
use halaos_stm32f103_hardwar.Bytecode.Walk.{Walk, Walk-lt, mark_loop-Marked}
use halaos_stm32f103_hardwar.Bytecode.Verified.{
  List-cases, IsOpen, round-IsOpen, target-Walk, analysis-Seeds,
}
use halaos_stm32f103_hardwar.Bytecode.Reads.{
  kind_at-same, visit-none, fits-same, next_at-same, target-same,
}

module _ (c c' : ℕ → ℕ) (size : ℕ) (same : (i : ℕ) → i < size → c i ≡ c' i) where
  mark_loop-same : (f pc : ℕ) (b : ℕ → Bool) → mark_loop c size f pc b ≡ mark_loop c' size f pc b
  unfolding mark_loop
  mark_loop-same zero pc b = refl
  mark_loop-same (suc f) pc b = elim (Bool-cases (leb size pc)) [
    | inl over ↦ rw over refl
    | inr more ↦
        let lt : pc < size = ground arith in
        let fit' : fits c' size (kind_at c' size pc) pc ≡ fits c size (kind_at c size pc) pc = sym (
          fits-same c c' size same (kind_at c size pc) pc
          ∙ ap (λ k. fits c' size k pc) (kind_at-same c c' size same pc lt)) in
        elim (Bool-cases (fits c size (kind_at c size pc) pc)) [
          | inl ok ↦
              let rest = mark_loop-same f (next_at c size pc) (update b pc true) in
              let next = next_at-same c c' size same pc lt ok in
              let rest' : mark_loop c size f (next_at c size pc) (update b pc true)
                  ≡ mark_loop c' size f (next_at c' size pc) (update b pc true) =
                rest ∙ ap (λ n. mark_loop c' size f n (update b pc true)) next in
              rw (more, fit', ok) rest'
          | inr bad ↦ rw (more, fit', bad) refl
        ]
  ]

  module _ (fit : (at : ℕ) → Walk c size 0 at → fits c size (kind_at c size at) at ≡ true) where
    check_targets-same :
        (f pc : ℕ) (b : ℕ → Bool)
        → ((at : ℕ) → Walk c size pc at → Walk c size 0 at)
        → check_targets c size f pc b ≡ check_targets c' size f pc b
    unfolding check_targets
    check_targets-same zero pc b on = refl
    check_targets-same (suc f) pc b on = elim (Bool-cases (leb size pc)) [
      | inl over ↦ rw over refl
      | inr more ↦
          let lt : pc < size = ground arith in
          let ok = fit pc (on pc (Walk.here lt)) in
          let rest =
            check_targets-same f (next_at c size pc) b (λ at w. on at (Walk.there lt w))
            ∙ ap (λ n. check_targets c' size f n b) (next_at-same c c' size same pc lt ok) in
          elim (Bool-cases (has_target (kind_at c size pc))) [
            | inl has_one ↦
                rw
                  (
                    more,
                    rest,
                    sym (kind_at-same c c' size same pc lt),
                    has_one,
                    sym (target-same c c' size same pc lt ok has_one),
                  )
                  refl
            | inr has_none ↦ rw (more, rest, sym (kind_at-same c c' size same pc lt), has_none) refl
          ]
    ]

    called-same :
        (pc : ℕ) (a : Analysis)
        → Walk c size 0 pc
        → (if is_call (kind_at c size pc) then seed (target c size pc) a else a)
          ≡ (if is_call (kind_at c' size pc) then seed (target c' size pc) a else a)
    called-same pc a w =
        let lt = Walk-lt c size w in
        elim (Bool-cases (is_call (kind_at c size pc))) [
          | inl call ↦
              rw
                (
                  sym (kind_at-same c c' size same pc lt),
                  call,
                  sym (target-same c c' size same pc lt (fit pc w) (ground arith)),
                )
                refl
          | inr other ↦ rw (sym (kind_at-same c c' size same pc lt), other) refl
        ]

    seed_loop-same :
        (f pc : ℕ) (a : Analysis)
        → ((at : ℕ) → Walk c size pc at → Walk c size 0 at)
        → seed_loop c size f pc a ≡ seed_loop c' size f pc a
    unfolding seed_loop
    seed_loop-same zero pc a on = refl
    seed_loop-same (suc f) pc a on = elim (Bool-cases (leb size pc)) [
      | inl over ↦ rw over refl
      | inr more ↦
          let w = on pc (Walk.here (ground arith)) in
          let x : Analysis = if is_call (kind_at c size pc) then seed (target c size pc) a else a in
          rw more (
            seed_loop-same f (next_at c size pc) x (λ at v. on at (Walk.there (ground arith) v))
            ∙ ap₂ (λ n y. seed_loop c' size f n y)
                (next_at-same c c' size same pc (Walk-lt c size w) (fit pc w)) (called-same pc a w))
    ]

    offer_branch-same :
        (at d : ℕ) (a : Analysis)
        → Walk c size 0 at
        → offer_branch c size at d a ≡ offer_branch c' size at d a
    unfolding offer_branch
    offer_branch-same at d a w =
        let lt = Walk-lt c size w in
        elim (Bool-cases (is_branch (kind_at c size at))) [
          | inl taken ↦
              rw
                (
                  sym (kind_at-same c c' size same at lt),
                  taken,
                  sym (target-same c c' size same at lt (fit at w) (ground arith)),
                )
                refl
          | inr skipped ↦ rw (sym (kind_at-same c c' size same at lt), skipped) refl
        ]

    offer_next-same :
        (at d : ℕ) (a : Analysis)
        → Walk c size 0 at
        → offer_next c size at d a ≡ offer_next c' size at d a
    unfolding offer_next
    offer_next-same at d a w =
        let lt = Walk-lt c size w in
        ap₂ (λ k n. if falls_through k && ltb n size then offer n d a else some a)
          (kind_at-same c c' size same at lt) (next_at-same c c' size same at lt (fit at w))

    offer_both-same :
        (at d : ℕ) (a : Analysis)
        → Walk c size 0 at
        → offer_both c size at d a ≡ offer_both c' size at d a
    unfolding offer_both
    offer_both-same at d a w =
        let first = offer_branch-same at d a w in
        elim (Option-cases (offer_branch c size at d a)) [
          | inl stop ↦ rw (offer_both, sym first, stop) refl
          | inr (b, go) ↦ rw (offer_both, sym first, go) (offer_next-same at d b w)
        ]

    visit-same : (at : ℕ) (a : Analysis) → Walk c size 0 at → visit c size at a ≡ visit c' size at a
    unfolding visit visit_with
    visit-same at a w = elim (Option-cases (a.depth at)) [
      | inl no_depth ↦ rw (visit, no_depth) refl
      | inr (d, found) ↦
          let k = kind_at-same c c' size same at (Walk-lt c size w) in
          elim (Option-cases (effect (kind_at c size at) d)) [
            | inl stop ↦ rw (visit, found, visit_with, sym k, stop) refl
            | inr (after, go) ↦
                rw (visit, found, visit_with, sym k, go)
                  (ap (λ x. if ltb max_depth after then none else x) (offer_both-same at after a w))
          ]
    ]

    module _
        (targets : (at : ℕ)
          → Walk c size 0 at
          → is_branch (kind_at c size at) ≡ true
          → Walk c size 0 (target c size at)) where
      work_loop-same :
          (f : ℕ) (a : Analysis)
          → IsOpen c size targets a
          → work_loop c size f a ≡ work_loop c' size f a
      unfolding work_loop
      work_loop-same zero a inv = refl
      work_loop-same (suc f) a inv = elim (List-cases a.pending) [
        | inl empty ↦ rw (empty, work_loop) refl
        | inr (at, rest, queue) ↦
            let b : Analysis = record a { pending = rest } in
            elim (Option-cases (a.depth at)) [
              | inl no_depth ↦
                  rw
                    (
                      queue,
                      work_loop,
                      visit-none c c' size same c at b no_depth,
                      visit-none c c' size same c' at b no_depth,
                    )
                    refl
              | inr (d, found) ↦
                  let v = visit-same at b (inv at d found).0 in
                  elim (Option-cases (visit c size at b)) [
                    | inl stop ↦ rw (queue, work_loop, sym v, stop) refl
                    | inr (x, go) ↦
                        rw (queue, work_loop, sym v, go)
                          (work_loop-same f x
                            (round-IsOpen c size targets at rest a x queue inv go).0)
                  ]
            ]
      ]

  flow_with-same :
      (b : ℕ → Bool)
      → 0 < size
      → mark_loop c size (size + 1) 0 (λ i. false) ≡ some b
      → flow_with c size (size + 1) b ≡ flow_with c' size (size + 1) b
  unfolding flow_with
  flow_with-same b pos go =
      let m = mark_loop-Marked c size (size + 1) 0 (λ i. false) b go in
      let checks = check_targets-same m.fit (size + 1) 0 b (λ at w. w) in
      let seeds = seed_loop-same m.fit (size + 1) 0 entry (λ at w. w) in
      elim (Bool-cases (check_targets c size (size + 1) 0 b)) [
        | inr bad ↦ ground arith
        | inl ok ↦
            let jump = target-Walk c size (size + 1) b go ok in
            let s = analysis-Seeds c size (size + 1) pos (omega arith) jump in
            let rounds =
              work_loop-same m.fit (λ at w t. jump at w (ground arith)) (size + 1)
                (seed_loop c size (size + 1) 0 entry)
                (λ x d h. let (z, w, q) = s.seeded x d h in (w, inl q)) in
            rw (sym checks, ok, sym seeds) rounds
      ]

  analyse-same : 0 < size → analyse c size ≡ analyse c' size
  unfolding analyse_with
  analyse-same pos =
      let marks = mark_loop-same (size + 1) 0 (λ i. false) in
      elim (Option-cases (mark_loop c size (size + 1) 0 (λ i. false))) [
        | inl stop ↦ rw (analyse_with, sym marks, stop) refl
        | inr (b, go) ↦ rw (analyse_with, sym marks, go) (flow_with-same b pos go)
      ]

  -- bytecode_verify depends on the code within its size only: two arrays that agree there are
  -- accepted or rejected alike.
  pub bytecode_verify_local :
      (rejects : ℕ) → bytecode_verify c size rejects ≡ bytecode_verify c' size rejects
  unfolding bytecode_verify
  bytecode_verify_local rejects = elim (Bool-cases ((size == 0) || ltb max_code size)) [
    | inl bad ↦ rw bad refl
    | inr fine ↦ rw (fine, bytecode_verify, analyse-same (ground arith)) refl
  ]
