-- ===== src/Bytecode/Fuel.antt =====
-- The loops of bytecode_verify (src/services/halaos_runtime.c) end within the fuel that they have:
-- the walks move on, and each round of the last loop leaves less work.
use halaos_stm32f103_hardwar.Prelude.{
  ℕ, zero, suc, ◌+◌, ◌<◌, ◌≡◌, refl, ap, Bool, true, false, some, arith, leb, if◌then◌else◌, update,
  inl, inr, Bool-cases, Option-cases, length,
}
use halaos_stm32f103_hardwar.Bytecode.{
  Analysis, is_branch, is_call, kind_at, target, next_at, mark_loop, check_targets, seed, seed_loop,
  visit, work_loop, entry, analyse, analyse_with, flow_with,
}
use halaos_stm32f103_hardwar.Bytecode.Walk.{Walk, Walk-lt}
use halaos_stm32f103_hardwar.Bytecode.Flow.{visit-split}
use halaos_stm32f103_hardwar.Bytecode.Verified.{
  List-cases, IsOpen, round-IsOpen, target-Walk, analysis-Seeds,
}
use halaos_stm32f103_hardwar.Bytecode.Work.{work, visit-work, seed_loop-work, entry-work}

module _ (code : ℕ → ℕ) (size : ℕ) where
  module _
      (targets : (at : ℕ)
        → Walk code size 0 at
        → is_branch (kind_at code size at) ≡ true
        → Walk code size 0 (target code size at)) where
    work_loop-enough :
        (f g : ℕ) (a : Analysis)
        → IsOpen code size targets a
        → work code size a < f
        → work code size a < g
        → work_loop code size f a ≡ work_loop code size g a
    unfolding work_loop
    work_loop-enough zero g a inv lf lg = absurd (omega arith)
    work_loop-enough (suc f) zero a inv lf lg = absurd (omega arith)
    work_loop-enough (suc f) (suc g) a inv lf lg = elim (List-cases a.pending) [
      | inl empty ↦ rw (empty, work_loop) refl
      | inr (at, rest, queue) ↦
          elim (Option-cases (visit code size at (record a { pending = rest }))) [
            | inl stop ↦ rw (queue, work_loop, stop) refl
            | inr (c, go) ↦
                let (d, after, found, x₁, x₂, x₃) =
                  visit-split code size targets at (record a { pending = rest }) c go in
                let w = (inv at d found).0 in
                let less = visit-work code size targets at (record a { pending = rest }) c w go in
                let (inv', more) = round-IsOpen code size targets at rest a c queue inv go in
                let l = ap length queue in
                rw (queue, work_loop, go) (work_loop-enough f g c inv' (omega arith) (omega arith))
          ]
    ]

  next_on : (pc : ℕ) → pc < next_at code size pc
  next_on pc = omega arith

  mark_loop-enough :
      (f g pc : ℕ) (boundary : ℕ → Bool)
      → 0 < f
      → 0 < g
      → size < pc + f
      → size < pc + g
      → mark_loop code size f pc boundary ≡ mark_loop code size g pc boundary
  unfolding mark_loop
  mark_loop-enough zero g pc b pf pg lf lg = absurd (omega arith)
  mark_loop-enough (suc f) zero pc b pf pg lf lg = absurd (omega arith)
  mark_loop-enough (suc f) (suc g) pc b pf pg lf lg = elim (Bool-cases (leb size pc)) [
    | inl over ↦ rw over refl
    | inr more ↦
        let on = next_on pc in
        rw
          (
            more,
            mark_loop-enough f g (next_at code size pc) (update b pc true) (ground arith)
                (ground arith) (ground arith) (ground arith),
          )
          refl
  ]

  check_targets-enough :
      (f g pc : ℕ) (boundary : ℕ → Bool)
      → 0 < f
      → 0 < g
      → size < pc + f
      → size < pc + g
      → check_targets code size f pc boundary ≡ check_targets code size g pc boundary
  unfolding check_targets
  check_targets-enough zero g pc b pf pg lf lg = absurd (omega arith)
  check_targets-enough (suc f) zero pc b pf pg lf lg = absurd (omega arith)
  check_targets-enough (suc f) (suc g) pc b pf pg lf lg = elim (Bool-cases (leb size pc)) [
    | inl over ↦ rw over refl
    | inr more ↦
        let on = next_on pc in
        rw
          (
            more,
            check_targets-enough f g (next_at code size pc) b (ground arith) (ground arith)
                (ground arith) (ground arith),
          )
          refl
  ]

  seed_loop-enough :
      (f g pc : ℕ) (a : Analysis)
      → size < pc + f
      → size < pc + g
      → seed_loop code size f pc a ≡ seed_loop code size g pc a
  unfolding seed_loop
  seed_loop-enough zero zero pc a lf lg = refl
  seed_loop-enough zero (suc g) pc a lf lg = ground arith
  seed_loop-enough (suc f) zero pc a lf lg = ground arith
  seed_loop-enough (suc f) (suc g) pc a lf lg = elim (Bool-cases (leb size pc)) [
    | inl over ↦ rw over refl
    | inr more ↦
        let on = next_on pc in
        let a' : Analysis =
          if is_call (kind_at code size pc) then seed (target code size pc) a else a in
        rw (more, seed_loop-enough f g (next_at code size pc) a' (ground arith) (ground arith)) refl
  ]

flow_with-enough :
    (code : ℕ → ℕ) (size fuel : ℕ) (b : ℕ → Bool)
    → 0 < size
    → size < fuel
    → mark_loop code size (size + 1) 0 (λ i. false) ≡ some b
    → flow_with code size fuel b ≡ flow_with code size (size + 1) b
unfolding flow_with
flow_with-enough code size fuel b pos enough go =
    let checks =
      check_targets-enough code size fuel (size + 1) 0 b (omega arith) (omega arith) (omega arith)
        (omega arith) in
    elim (Bool-cases (check_targets code size (size + 1) 0 b)) [
      | inr bad ↦ ground arith
      | inl ok ↦
          let jump = target-Walk code size (size + 1) b go ok in
          let seeds =
            seed_loop-enough code size fuel (size + 1) 0 entry (omega arith) (omega arith) in
          let s = analysis-Seeds code size (size + 1) pos (omega arith) jump in
          let a : Analysis = seed_loop code size (size + 1) 0 entry in
          let amount =
            seed_loop-work code size (size + 1) 0 entry
              (λ at w c. Walk-lt code size (jump at w (ground arith))) in
          let start = entry-work code size pos in
          let rounds =
            work_loop-enough code size (λ at w t. jump at w (ground arith)) fuel (size + 1) a
              (λ x d h. let (z, w, q) = s.seeded x d h in (w, inl q)) (omega arith) (omega arith) in
          rw (checks, ok, seeds) rounds
    ]

-- For code that is not empty, the walks and the work loop of bytecode_verify end within the fuel
-- that they are given, one round more than the code has bytes: any larger amount gives the same
-- result, acceptance with the same depths or rejection.
pub analyse_with-enough :
    (code : ℕ → ℕ) (size fuel : ℕ)
    → 0 < size
    → size < fuel
    → analyse_with code size fuel ≡ analyse code size
unfolding analyse_with
analyse_with-enough code size fuel pos enough =
    let marks =
      mark_loop-enough code size fuel (size + 1) 0 (λ i. false) (omega arith) (omega arith)
        (omega arith) (omega arith) in
    elim (Option-cases (mark_loop code size (size + 1) 0 (λ i. false))) [
      | inl stop ↦ rw (marks, stop, analyse_with) refl
      | inr (b, go) ↦ rw (marks, go, analyse_with) (flow_with-enough code size fuel b pos enough go)
    ]
