-- ===== src/Bytecode/Reject.antt =====
-- bytecode_verify (src/services/halaos_runtime.c) rejects code for a reason that it has found, never
-- because a loop does not come to its end.
use halaos_stm32f103_hardwar.Prelude.{
  ℕ, zero, suc, ◌+◌, ◌<◌, ◌≡◌, ◌⊎◌, refl, sym, ap, ◌∙◌, Bool, true, false, not, ◌&&◌, ◌||◌, none,
  some, List, ◌∷◌, arith, leb, update, inl, inr, Bool-cases, Option-cases, eqb→eq, eqb_refl, length,
}
use halaos_stm32f103_hardwar.Bytecode.{
  Analysis, is_branch, has_target, fits, kind_at, target, next_at, mark_loop, check_targets,
  seed_loop, visit, work_loop, entry, analyse, analyse_with, flow_with,
}
use halaos_stm32f103_hardwar.Bytecode.Walk.{Walk, Walk-lt, Walk-cases, Walk-end}
use halaos_stm32f103_hardwar.Bytecode.Flow.{visit-split, offer_both-split}
use halaos_stm32f103_hardwar.Bytecode.Refused.{
  Queued, Refused, visit-none, seed_loop-Queued, offer_branch-Queued, offer_next-Queued,
}
use halaos_stm32f103_hardwar.Bytecode.Verified.{
  List-cases, IsOpen, round-IsOpen, target-Walk, analysis-Seeds,
}
use halaos_stm32f103_hardwar.Bytecode.Work.{work, visit-work, seed_loop-work, entry-work}
use halaos_stm32f103_hardwar.Bytecode.Fuel.{analyse_with-enough}

module _ (code : ℕ → ℕ) (size : ℕ) where
  -- The states of the last loop, from the one that the third walk leaves on.
  pub data Rounds : Analysis → Type 0 where
    start : Rounds (seed_loop code size (size + 1) 0 entry)
    next :
        {a c : Analysis} {at : ℕ} {rest : List ℕ}
        → Rounds a
        → a.pending ≡ at ∷ rest
        → visit code size at (record a { pending = rest }) ≡ some c
        → Rounds c

  -- An instruction that is not complete, not known or has a local out of range; a target that is
  -- not the start of an instruction; a position that the last loop comes to with a depth that does
  -- not fit there.
  pub data Reason : Type 0 where
    unfit :
        (at : ℕ) → Walk code size 0 at → fits code size (kind_at code size at) at ≡ false → Reason
    astray :
        (at : ℕ)
        → Walk code size 0 at
        → has_target (kind_at code size at) ≡ true
        → ¬ Walk code size 0 (target code size at)
        → Reason
    clash :
        (a : Analysis) (at : ℕ) (rest : List ℕ)
        → Rounds a
        → a.pending ≡ at ∷ rest
        → Refused code size at a.depth
        → Reason

  mark_loop-unfit :
      (fuel pc : ℕ) (boundary : ℕ → Bool)
      → 0 < fuel
      → size < pc + fuel
      → mark_loop code size fuel pc boundary ≡ none
      → (at : ℕ) × Walk code size pc at × (fits code size (kind_at code size at) at ≡ false)
  unfolding mark_loop
  mark_loop-unfit zero pc b pos enough e = absurd (omega arith)
  mark_loop-unfit (suc f) pc b pos enough e = elim (Bool-cases (leb size pc)) [
    | inl over ↦ absurd (ground arith)
    | inr more ↦ elim (Bool-cases (fits code size (kind_at code size pc) pc)) [
      | inl ok ↦
          let (at, w, bad) =
            mark_loop-unfit f (next_at code size pc) (update b pc true) (ground arith) (omega arith)
              (ground arith) in
          (at, Walk.there (ground arith) w, bad)
      | inr bad ↦ (pc, Walk.here (ground arith), bad)
    ]
  ]

  -- The first walk marks every instruction.
  mark_loop-marks :
      (fuel pc : ℕ) (before after : ℕ → Bool) (at : ℕ)
      → mark_loop code size fuel pc before ≡ some after
      → (before at ≡ true) ⊎ Walk code size pc at
      → after at ≡ true
  unfolding mark_loop
  mark_loop-marks zero pc before after at e m = absurd (ground arith)
  mark_loop-marks (suc f) pc before after at e m = elim (Bool-cases (leb size pc)) [
    | inl over ↦
        let same : before ≡ after = ground arith in
        elim m [
          | inl old ↦ ap (λ (g : ℕ → Bool). g at) (sym same) ∙ old
          | inr w ↦ absurd (Walk-end code size over w)
        ]
    | inr more ↦ elim (Bool-cases (fits code size (kind_at code size pc) pc)) [
      | inl ok ↦
          mark_loop-marks f (next_at code size pc) (update before pc true) after at (ground arith)
            (elim m [
              | inl old ↦ inl (ground arith)
              | inr w ↦ elim (Walk-cases code size w) [
                | inl (same, lt) ↦ inl (rw same (ground (arith, eqb_refl pc)))
                | inr w' ↦ inr w'
              ]
            ])
      | inr bad ↦ absurd (ground arith)
    ]
  ]

  check_targets-astray :
      (fuel pc : ℕ) (boundary : ℕ → Bool)
      → 0 < fuel
      → size < pc + fuel
      → check_targets code size fuel pc boundary ≡ false
      → (at : ℕ) × Walk code size pc at
        × (has_target (kind_at code size at) ≡ true)
        × (leb size (target code size at) || not (boundary (target code size at)) ≡ true)
  unfolding check_targets
  check_targets-astray zero pc b pos enough e = absurd (omega arith)
  check_targets-astray (suc f) pc b pos enough e = elim (Bool-cases (leb size pc)) [
    | inl over ↦ absurd (ground arith)
    | inr more ↦
        elim (Bool-cases (
          has_target (kind_at code size pc)
          && (leb size (target code size pc) || not (b (target code size pc))))) [
            | inl bad ↦ (pc, Walk.here (ground arith), ground arith, ground arith)
            | inr ok ↦
                let (at, w, t, bad) =
                  check_targets-astray f (next_at code size pc) b (ground arith) (omega arith)
                    (ground arith) in
                (at, Walk.there (ground arith) w, t, bad)
          ]
  ]

  visit-Queued :
      (targets : (at : ℕ)
        → Walk code size 0 at
        → is_branch (kind_at code size at) ≡ true
        → Walk code size 0 (target code size at))
      (at : ℕ) (a c : Analysis)
      → Queued a
      → visit code size at a ≡ some c
      → Queued c
  visit-Queued targets at a c q e =
      let (d, after, found, go, low, both) = visit-split code size targets at a c e in
      let (b, first, second) = offer_both-split code size targets at after a c both in
      offer_next-Queued code size at after b c (offer_branch-Queued code size at after a b q first)
        second

  entry-Queued : Queued entry
  entry-Queued x m = let here : x ≡ 0 = eqb→eq x 0 (ground arith) in (0, rw here refl)

  work_loop-clash :
      (targets : (at : ℕ)
        → Walk code size 0 at
        → is_branch (kind_at code size at) ≡ true
        → Walk code size 0 (target code size at))
      (f : ℕ) (a : Analysis)
      → IsOpen code size targets a
      → work code size a < f
      → Rounds a
      → Queued a
      → work_loop code size f a ≡ none
      → Reason
  unfolding work_loop
  work_loop-clash targets zero a inv less r q e = absurd (omega arith)
  work_loop-clash targets (suc f) a inv less r q e = elim (List-cases a.pending) [
    | inl empty ↦ absurd (ground (arith, rw (empty, work_loop) at e))
    | inr (at, rest, queue) ↦
        elim (Option-cases (visit code size at (record a { pending = rest }))) [
          | inl stop ↦
              let (d, found) = q at (rw queue (ground (arith, eqb_refl at))) in
              Reason.clash a at rest r queue
                (visit-none code size at d (record a { pending = rest }) found stop)
          | inr (c, go) ↦
              let (d, after, found, x₁, x₂, x₃) =
                visit-split code size targets at (record a { pending = rest }) c go in
              let w = (inv at d found).0 in
              let same = visit-work code size targets at (record a { pending = rest }) c w go in
              let (inv', more) = round-IsOpen code size targets at rest a c queue inv go in
              let l = ap length queue in
              work_loop-clash targets f c inv' (omega arith) (Rounds.next r queue go)
                (visit-Queued targets at (record a { pending = rest }) c
                  (λ x m. q x (rw queue (ground arith))) go)
                (rw (queue, work_loop, go) at e)
        ]
  ]

  astray-Reason :
      (boundary : ℕ → Bool) (at : ℕ)
      → mark_loop code size (size + 1) 0 (λ i. false) ≡ some boundary
      → Walk code size 0 at
      → has_target (kind_at code size at) ≡ true
      → leb size (target code size at) || not (boundary (target code size at)) ≡ true
      → Reason
  astray-Reason boundary at go w t bad = Reason.astray at w t λ there.
      let lt = Walk-lt code size there in
      let marked =
        mark_loop-marks (size + 1) 0 (λ i. false) boundary (target code size at) go (inr there) in
      absurd (ground arith)

  flow_with-Reason :
      (b : ℕ → Bool)
      → 0 < size
      → mark_loop code size (size + 1) 0 (λ i. false) ≡ some b
      → flow_with code size (size + 1) b ≡ none
      → Reason
  unfolding flow_with
  flow_with-Reason b pos go e = elim (Bool-cases (check_targets code size (size + 1) 0 b)) [
    | inr bad ↦
        let (at, w, t, out) = check_targets-astray (size + 1) 0 b (omega arith) (omega arith) bad in
        astray-Reason b at go w t out
    | inl ok ↦
        let jump = target-Walk code size (size + 1) b go ok in
        let s = analysis-Seeds code size (size + 1) pos (omega arith) jump in
        let amount =
          seed_loop-work code size (size + 1) 0 entry
            (λ at w c. Walk-lt code size (jump at w (ground arith))) in
        let begun = entry-work code size pos in
        work_loop-clash (λ at w t. jump at w (ground arith)) (size + 1)
          (seed_loop code size (size + 1) 0 entry)
          (λ x d h. let (z, w, q) = s.seeded x d h in (w, inl q)) (omega arith) Rounds.start
          (seed_loop-Queued code size (size + 1) 0 entry entry-Queued) (ground arith)
  ]

  analyse-Reason : 0 < size → analyse code size ≡ none → Reason
  unfolding analyse_with
  analyse-Reason pos e = elim (Option-cases (mark_loop code size (size + 1) 0 (λ i. false))) [
    | inl stop ↦
        let (at, w, bad) =
          mark_loop-unfit (size + 1) 0 (λ i. false) (omega arith) (omega arith) stop in
        Reason.unfit at w bad
    | inr (b, go) ↦ flow_with-Reason b pos go (ground arith)
  ]

-- For code that is not empty, the walks and the work loop of bytecode_verify end within the fuel
-- that they are given, one round more than the code has bytes: any larger amount gives the same
-- result; and if that is a rejection, then not for want of fuel, but because an instruction that
-- the first walk comes to is not complete, not known or names a local that does not exist, or a
-- call or branch leads to a byte that is not the start of an instruction, or the rounds of the
-- last loop come to a position whose depth is too low for its instruction (or not 1 at a RET),
-- makes it leave more than 16 operands, or leaves another depth than the one that a position
-- after it has.
pub analyse_with-Reason :
    (code : ℕ → ℕ) (size fuel : ℕ)
    → 0 < size
    → size < fuel
    → (analyse_with code size fuel ≡ analyse code size)
      × (analyse_with code size fuel ≡ none → Reason code size)
analyse_with-Reason code size fuel pos enough =
    let same = analyse_with-enough code size fuel pos enough in
    (same, λ e. analyse-Reason code size pos (sym same ∙ e))
