-- ===== src/Bytecode/Verified.antt =====
-- What bytecode_verify (src/services/halaos_runtime.c) guarantees of the code that it accepts.
use halaos_stm32f103_hardwar.Prelude.{
  ℕ, zero, suc, ◌+◌, ◌<◌, ◌≡◌, ◌⊎◌, refl, sym, subst, Bool, true, false, Option, some, List, [],
  ◌∷◌, arith, ◌==◌, inl, inr, Bool-cases, Option-cases, eqb→eq, has,
}
use halaos_stm32f103_hardwar.Bytecode.{
  Analysis, is_branch, is_call, has_target, fits, kind_at, target, mark_loop, check_targets,
  seed_loop, visit, work_loop, entry, analyse, analyse_with, flow_with,
}
use halaos_stm32f103_hardwar.Bytecode.Walk.{Walk, Walk-lt, mark_loop-Marked, check_targets_sound}
use halaos_stm32f103_hardwar.Bytecode.Seed.{IsSeeded, Extends, Seeds, seed_loop-Seeds}
use halaos_stm32f103_hardwar.Bytecode.Flow.{Agrees, Agrees-Extends, visit-split, visit-Agrees}

-- A queue is empty or has a head.
pub List-cases : (q : List ℕ) → (q ≡ []) ⊎ ((x : ℕ) × (r : List ℕ) × (q ≡ x ∷ r))
List-cases [] = inl refl
List-cases (x ∷ r) = inr (x, r, refl)

module _ (code : ℕ → ℕ) (size : ℕ)
    (targets : (at : ℕ)
      → Walk code size 0 at
      → is_branch (kind_at code size at) ≡ true
      → Walk code size 0 (target code size at)) where
  -- Every depth is that of an instruction, and agrees with its neighbours unless it is in the queue.
  abbrev pub IsOpen : Analysis → Type 0
  IsOpen a =
      (x d : ℕ)
      → a.depth x ≡ some d
      → Walk code size 0 x × ((has x a.pending ≡ true) ⊎ Agrees code size a.depth x d)

  pub round-IsOpen :
      (at : ℕ) (rest : List ℕ) (a c : Analysis)
      → a.pending ≡ at ∷ rest
      → IsOpen a
      → visit code size at (record a { pending = rest }) ≡ some c
      → IsOpen c × Extends a.depth c.depth
  round-IsOpen at rest a c queue inv e =
      let a' : Analysis = record a { pending = rest } in
      let (d, after, found, x₁, x₂, x₃) = visit-split code size targets at a' c e in
      let (d', found', agrees, grown) =
        visit-Agrees code size targets at a' c (inv at d found).0 e in
      (
        (λ x v h. elim (grown.news x v h) [
          | inr (w, m) ↦ (w, inl m)
          | inl old ↦
              let (w, why) = inv x v old in
              (
                w,
                elim (Bool-cases (x == at)) [
                  | inl same ↦
                      let here = eqb→eq x at same in
                      inr (
                        subst (λ y. Agrees code size c.depth y v) (sym here)
                          (subst (λ u. Agrees code size c.depth at u) (ground arith) agrees))
                  | inr other ↦ elim why [
                    | inl m ↦ inl (grown.queued x (rw (queue, other) at m))
                    | inr g ↦ inr (Agrees-Extends code size a.depth c.depth x v grown.extends g)
                  ]
                ],
              )
        ]),
        grown.extends,
      )

  work_loop_sound :
      (fuel : ℕ) (a : Analysis) (f : ℕ → Option ℕ)
      → IsOpen a
      → work_loop code size fuel a ≡ some f
      → Extends a.depth f × ((x d : ℕ) → f x ≡ some d → Walk code size 0 x × Agrees code size f x d)
  unfolding work_loop
  work_loop_sound zero a f inv e = absurd (ground arith)
  work_loop_sound (suc n) a f inv e = elim (List-cases a.pending) [
    | inl empty ↦
        let all : some a.depth ≡ some f = rw (empty, work_loop) at e in
        let same : a.depth ≡ f = ground arith in
        subst
          (λ (g : ℕ → Option ℕ).
            Extends a.depth g
            × ((x d : ℕ) → g x ≡ some d → Walk code size 0 x × Agrees code size g x d))
          same
          (
            (λ x d h. h),
            λ x d h.
                let (w, why) = inv x d h in
                (w, elim why [ inl m ↦ absurd (ground arith) | inr g ↦ g ]),
          )
    | inr (at, rest, queue) ↦
        elim (Option-cases (visit code size at (record a { pending = rest }))) [
          | inl stop ↦ absurd (ground (arith, rw (queue, work_loop, stop) at e))
          | inr (c, go) ↦
              let (inv', more) = round-IsOpen at rest a c queue inv go in
              let r = work_loop_sound n c f inv' (rw (queue, work_loop, go) at e) in
              ((λ x d h. r.0 x d (more x d h)), r.1)
        ]
  ]

-- What the analysis leaves of code that is accepted: the depth of the operand stack at every
-- instruction that can be reached, agreeing along every edge.
pub record IsVerified (code : ℕ → ℕ) (size : ℕ) (depth : ℕ → Option ℕ) : Type 0 where
  pub entry : depth 0 ≡ some 0
  pub fit : (x d : ℕ) → depth x ≡ some d → fits code size (kind_at code size x) x ≡ true
  pub inside : (x d : ℕ) → depth x ≡ some d → x < size
  pub agrees : (x d : ℕ) → depth x ≡ some d → Agrees code size depth x d
  pub calls :
      (x d : ℕ)
      → depth x ≡ some d
      → is_call (kind_at code size x) ≡ true
      → depth (target code size x) ≡ some 0

analyse-split :
    (code : ℕ → ℕ) (size : ℕ) (depth : ℕ → Option ℕ)
    → analyse code size ≡ some depth
    → (boundary : ℕ → Bool) × (mark_loop code size (size + 1) 0 (λ i. false) ≡ some boundary)
      × (check_targets code size (size + 1) 0 boundary ≡ true)
      × (work_loop code size (size + 1) (seed_loop code size (size + 1) 0 entry) ≡ some depth)
unfolding analyse_with flow_with
analyse-split code size depth e =
    elim (Option-cases (mark_loop code size (size + 1) 0 (λ i. false))) [
      | inl stop ↦ absurd (ground arith)
      | inr (boundary, go) ↦ elim (Bool-cases (check_targets code size (size + 1) 0 boundary)) [
        | inl ok ↦ (boundary, go, ok, ground arith)
        | inr bad ↦ absurd (ground arith)
      ]
    ]

entry-IsSeeded : (code : ℕ → ℕ) (size : ℕ) → 0 < size → IsSeeded (λ x. Walk code size 0 x) entry
entry-IsSeeded code size pos at d h = elim (Bool-cases (at == 0)) [
  | inl same ↦
      rw (eqb→eq at 0 same) (ground (arith, rw (eqb→eq at 0 same) at h), Walk.here pos, refl)
  | inr other ↦ absurd (ground arith)
]

-- The targets of code that the first two walks accept.
pub target-Walk :
    (code : ℕ → ℕ) (size fuel : ℕ) (boundary : ℕ → Bool)
    → mark_loop code size fuel 0 (λ i. false) ≡ some boundary
    → check_targets code size fuel 0 boundary ≡ true
    → (at : ℕ) → Walk code size 0 at
    → has_target (kind_at code size at) ≡ true
    → Walk code size 0 (target code size at)
target-Walk code size fuel boundary marked checked at w t =
    let m = mark_loop-Marked code size fuel 0 (λ i. false) boundary marked in
    let b = check_targets_sound code size fuel 0 boundary at checked w t in
    elim (m.sound (target code size at) b.1) [ inl old ↦ absurd (ground arith) | inr w' ↦ w' ]

pub analysis-Seeds :
    (code : ℕ → ℕ) (size fuel : ℕ)
    → 0 < size
    → size < fuel
    → ((at : ℕ)
        → Walk code size 0 at
        → has_target (kind_at code size at) ≡ true
        → Walk code size 0 (target code size at))
    → Seeds code size (λ x. Walk code size 0 x) 0 entry (seed_loop code size fuel 0 entry)
analysis-Seeds code size fuel pos enough jump =
    seed_loop-Seeds code size (λ x. Walk code size 0 x) fuel 0 entry (omega arith)
      (λ at d h. entry-IsSeeded code size pos at d h) λ at w c. jump at w (ground arith)

pub analyse-IsVerified :
    (code : ℕ → ℕ) (size : ℕ) (depth : ℕ → Option ℕ)
    → 0 < size
    → analyse code size ≡ some depth
    → IsVerified code size depth
analyse-IsVerified code size depth pos e =
    let (boundary, marked, checked, worked) = analyse-split code size depth e in
    let m = mark_loop-Marked code size (size + 1) 0 (λ i. false) boundary marked in
    let jump = target-Walk code size (size + 1) boundary marked checked in
    let s = analysis-Seeds code size (size + 1) pos (omega arith) jump in
    let r =
      work_loop_sound code size (λ at w b. jump at w (ground arith)) (size + 1)
        (seed_loop code size (size + 1) 0 entry) depth
        (λ x d h. let (z, w, q) = s.seeded x d h in (w, inl q)) worked in
    record {
      entry = r.0 0 0 (s.extends 0 0 refl);
      fit = λ x d h. m.fit x (r.1 x d h).0;
      inside = λ x d h. Walk-lt code size (r.1 x d h).0;
      agrees = λ x d h. (r.1 x d h).1;
      calls = λ x d h c. r.0 (target code size x) 0 (s.calls x (r.1 x d h).0 c);
    }
