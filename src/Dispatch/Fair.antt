-- ===== src/Dispatch/Fair.antt =====
-- pick_fair chooses the least virtual deadline.
use halaos_stm32f103_hardwar.Prelude.{
  ℕ, zero, suc, ◌+◌, ◌≡◌, refl, subst, ◌∙◌, ◌⊎◌, ◌&&◌, inl, inr, Bool, true, false, arith, ltb,
  ◌==◌, if◌then◌else◌, Bool-cases, eqb→eq,
}
use halaos_stm32f103_hardwar.Chain.{invalid_idx, max_tasks}
use halaos_stm32f103_hardwar.Kernel.{Sched}
use halaos_stm32f103_hardwar.Sleep.{set_task}
use halaos_stm32f103_hardwar.Dispatch.{is_fair_ready, first_deadline, fair_scan, pick_fair}
use halaos_stm32f103_hardwar.Dispatch.Deadline.{u64_max}
use halaos_stm32f103_hardwar.Dispatch.Least.{Best, IsLeast, NoneBelow, step-Best}

abbrev pub fair_ready_at : Sched → ℕ → Bool
fair_ready_at k j = is_fair_ready (k.tasks j)

abbrev pub virtual_deadline : Sched → ℕ → ℕ
virtual_deadline k j = first_deadline (k.tasks j)

-- `best` is the first task with the least virtual deadline among the fair tasks that are READY.
abbrev pub IsFairest : Sched → ℕ → Type 0
IsFairest k best = IsLeast (fair_ready_at k) (virtual_deadline k) u64_max max_tasks best

abbrev pub NoFair : Sched → Type 0
NoFair k = NoneBelow (fair_ready_at k) (virtual_deadline k) u64_max max_tasks

-- `k'` differs from `k` in the tasks below `i` only, and there by filled-in virtual deadlines.
abbrev pub FilledBelow : Sched → ℕ → Sched → Type 0
FilledBelow k i k' =
    (j : ℕ)
    → k'.tasks j ≡ (
        if ltb j i && is_fair_ready (k.tasks j)
        then record (k.tasks j) { virtual_deadline = first_deadline (k.tasks j) }
        else k.tasks j)

not_yet : (k k' : Sched) (i : ℕ) → FilledBelow k i k' → k'.tasks i ≡ k.tasks i
not_yet k k' i f = let past : ltb i i ≡ false = ground arith in f i ∙ rw past

-- The state after the round for task `i`.
abbrev fill : Sched → ℕ → Sched → Sched
fill k i k' =
    if fair_ready_at k i
    then set_task i (record (k.tasks i) { virtual_deadline = virtual_deadline k i }) k'
    else k'

fill-FilledBelow : (k k' : Sched) (i : ℕ) → FilledBelow k i k' → FilledBelow k (i + 1) (fill k i k')
fill-FilledBelow k k' i f j = elim (Bool-cases (fair_ready_at k i)) [
  | inl ready ↦ rw ready (elim (Bool-cases (j == i)) [
    | inl same ↦
        let now : ltb j (i + 1) ≡ true = ground arith in rw (same, now, eqb→eq j i same, ready)
    | inr other ↦ let le : ltb j (i + 1) ≡ ltb j i = ground arith in rw (other, le) (f j)
  ])
  | inr unready ↦ rw unready (elim (Bool-cases (j == i)) [
    | inl same ↦
        let now : ltb i (i + 1) ≡ true = ground arith in
        rw (eqb→eq j i same, now, unready) (not_yet k k' i f)
    | inr other ↦ let le : ltb j (i + 1) ≡ ltb j i = ground arith in rw le (f j)
  ])
]

fair_scan-Best :
    (k k' : Sched) (left i best d : ℕ)
    → left + i ≡ max_tasks
    → FilledBelow k i k'
    → Best (fair_ready_at k) (virtual_deadline k) u64_max i best d
    → let r = fair_scan left i best d k' in
      (d' : ℕ) × Best (fair_ready_at k) (virtual_deadline k) u64_max max_tasks r.0 d'
      × FilledBelow k max_tasks r.1
unfolding fair_scan
fair_scan-Best k k' zero i best d e f b = (
  d,
  subst (λ n. Best (fair_ready_at k) (virtual_deadline k) u64_max n best d) (omega arith) b,
  subst (λ n. FilledBelow k n k') (omega arith) f,
)
fair_scan-Best k k' (suc left) i best d e f b =
    let better = fair_ready_at k i && ltb (virtual_deadline k i) d in
    rw (not_yet k k' i f, fair_scan)
      (fair_scan-Best k (fill k i k') left (i + 1) (if better then i else best)
        (if better then virtual_deadline k i else d) (omega arith) (fill-FilledBelow k k' i f)
        (step-Best (fair_ready_at k) (virtual_deadline k) u64_max i best d b))

-- pick_fair gives each READY fair task without a virtual deadline its first one, and changes
-- nothing else of any task; it returns the least virtual deadline among these tasks, the first of
-- equals, or INVALID_IDX while there is none (the largest u64 counting as no deadline).
pub pick_fair-IsFairest :
    (k : Sched)
    → let (best, k') = pick_fair k in
      (((best ≡ invalid_idx) × NoFair k) ⊎ IsFairest k best) × FilledBelow k max_tasks k'
unfolding pick_fair
pick_fair-IsFairest k =
    let none_yet : FilledBelow k 0 k = λ j. ground arith in
    let r =
      fair_scan-Best k k max_tasks 0 invalid_idx u64_max refl none_yet
        (inl (refl, refl, λ j lt. absurd (omega arith))) in
    let scan = fair_scan max_tasks 0 invalid_idx u64_max k in
    (
      outcome scan.0 r.0 r.1,
      λ j. elim (Bool-cases (scan.0 == invalid_idx)) [
        | inl none ↦ rw none (r.2 j)
        | inr found ↦ rw found (r.2 j)
      ],
    )
  where
    outcome :
        (best d : ℕ)
        → Best (fair_ready_at k) (virtual_deadline k) u64_max max_tasks best d
        → ((best ≡ invalid_idx) × NoFair k) ⊎ IsFairest k best
    outcome best d (inl (e, t, none)) = inl (e, none)
    outcome best d (inr (l, e)) = inr l
