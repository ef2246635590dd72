-- ===== src/Dispatch/Pick.antt =====
-- sched_pick_next: DEADLINE before real-time before fair before idle.
use halaos_stm32f103_hardwar.Prelude.{
  ℕ, ◌<◌, ◌≡◌, subst, ◌⊎◌, inl, inr, true, false, List, arith, ◌==◌, if◌then◌else◌, not, ◌&&◌,
  inc32, Bool-cases,
}
use halaos_stm32f103_hardwar.Chain.{invalid_idx, max_tasks}
use halaos_stm32f103_hardwar.Kernel.{Sched}
use halaos_stm32f103_hardwar.Ready.{highest_rt}
use halaos_stm32f103_hardwar.Ready.Invariant.{Holds, IsReadyQueues}
use halaos_stm32f103_hardwar.Ready.Highest.{IsTop, AllEmpty, highest_rt-IsTop}
use halaos_stm32f103_hardwar.Dispatch.{
  pick_deadline, pick_fair, pick_rt_or_fair, sched_pick_next, note_scan,
}
use halaos_stm32f103_hardwar.Dispatch.Deadline.{IsEarliest, NoDeadline, pick_deadline-IsEarliest}
use halaos_stm32f103_hardwar.Dispatch.Fair.{IsFairest, NoFair, pick_fair-IsFairest}

IsTop-lt : (k : Sched) (qs : ℕ → List ℕ) (x : ℕ) → IsReadyQueues k qs → IsTop qs 0 x → x < max_tasks
IsTop-lt k qs x inv (p, q, lt, e, none) = let h = subst (Holds k p) e (inv p lt) in h.chain.1

-- What is chosen when no DEADLINE task can run.
abbrev pub SecondChoice : Sched → (ℕ → List ℕ) → ℕ → Type 0
SecondChoice k qs i =
    ((k.rt_throttled ≡ false) × IsTop qs 0 i)
    ⊎ (((k.rt_throttled ≡ true) ⊎ AllEmpty qs 0) × (IsFairest k i ⊎ (NoFair k × (i ≡ 0))))

fair-choice :
    (k : Sched)
    → IsFairest k (if (pick_fair k).0 == invalid_idx then 0 else (pick_fair k).0)
      ⊎ (NoFair k × ((if (pick_fair k).0 == invalid_idx then 0 else (pick_fair k).0) ≡ 0))
fair-choice k = choose (pick_fair k).0 (pick_fair-IsFairest k).0
  where
    choose :
        (best : ℕ)
        → ((best ≡ invalid_idx) × NoFair k) ⊎ IsFairest k best
        → IsFairest k (if best == invalid_idx then 0 else best)
          ⊎ (NoFair k × ((if best == invalid_idx then 0 else best) ≡ 0))
    choose best (inl (e, none)) = inr (none, ground arith)
    choose best (inr l) =
        let valid : (best == invalid_idx) ≡ false = ground (arith, l.below) in rw valid (inl l)

pick_rt_or_fair-SecondChoice :
    (k : Sched) (qs : ℕ → List ℕ) → IsReadyQueues k qs → SecondChoice k qs (pick_rt_or_fair k).0
unfolding pick_rt_or_fair
pick_rt_or_fair-SecondChoice k qs inv = elim (Bool-cases k.rt_throttled) [
  | inl throttled ↦
      let skip : (not k.rt_throttled && not (highest_rt k == invalid_idx)) ≡ false = ground arith in
      rw skip (inr (inl throttled, fair-choice k))
  | inr free ↦ elim (highest_rt-IsTop k qs inv) [
    | inl e ↦
        let skip : (not k.rt_throttled && not (highest_rt k == invalid_idx)) ≡ false =
          ground arith in
        rw skip (inr (inr e.1, fair-choice k))
    | inr top ↦
        let take : (not k.rt_throttled && not (highest_rt k == invalid_idx)) ≡ true =
          ground (arith, IsTop-lt k qs (highest_rt k) inv top) in
        rw take (inl (free, top))
  ]
]

-- Where the ready queues are well formed and hold the lists `qs`, sched_pick_next returns the
-- earliest DEADLINE task that can run (READY, with runtime left, the largest u64 counting as no
-- deadline); if there is none, the first real-time task of the highest level that is not empty,
-- unless real time is throttled; if that gives none either, the READY fair task with the least
-- virtual deadline; and task 0 only if there is none of all these.
pub sched_pick_next-order :
    (k : Sched) (qs : ℕ → List ℕ)
    → IsReadyQueues k qs
    → let i = (sched_pick_next k).0 in IsEarliest k i ⊎ (NoDeadline k × SecondChoice k qs i)
unfolding sched_pick_next pick_deadline
sched_pick_next-order k qs inv =
    let k₀ : Sched = record k { scheduler_calls = inc32 k.scheduler_calls } in
    let k₁ : Sched = note_scan k₀ in
    let inv' : IsReadyQueues k₁ qs = λ p lt.
      let h = inv p lt in
      record {
        chain = h.chain;
        last = h.last;
        bit = h.bit;
        distinct = h.distinct;
        at_level = h.at_level;
      } in
    elim (pick_deadline-IsEarliest k₀) [
      | inl e ↦ rw e.0 (inr (e.1, pick_rt_or_fair-SecondChoice k₁ qs inv'))
      | inr l ↦
          let valid : ((pick_deadline k₀).0 == invalid_idx) ≡ false = ground (arith, l.below) in
          rw valid (inl l)
    ]
