-- ===== src/Dispatch/Deadline.antt =====
-- pick_deadline chooses the earliest deadline.
use halaos_stm32f103_hardwar.Prelude.{
  ℕ, zero, suc, ◌+◌, ◌-◌, ◌≡◌, refl, subst, ◌⊎◌, ◌&&◌, inl, inr, Bool, arith, ltb, if◌then◌else◌,
  u64_mod,
}
use halaos_stm32f103_hardwar.Chain.{invalid_idx, max_tasks}
use halaos_stm32f103_hardwar.Kernel.{Sched}
use halaos_stm32f103_hardwar.Dispatch.{can_run, deadline_scan, pick_deadline}
use halaos_stm32f103_hardwar.Dispatch.Least.{Best, IsLeast, NoneBelow, step-Best}

-- READY, DEADLINE, with budget left.
abbrev pub can_run_at : Sched → ℕ → Bool
can_run_at k j = can_run (k.tasks j)

abbrev pub abs_deadline : Sched → ℕ → ℕ
abs_deadline k j = (k.tasks j).abs_deadline

abbrev pub u64_max : ℕ
u64_max = u64_mod - 1

-- `best` is the first task with the earliest deadline among those that can run.
abbrev pub IsEarliest : Sched → ℕ → Type 0
IsEarliest k best = IsLeast (can_run_at k) (abs_deadline k) u64_max max_tasks best

-- No DEADLINE task can run (or only with a deadline at the largest u64).
abbrev pub NoDeadline : Sched → Type 0
NoDeadline k = NoneBelow (can_run_at k) (abs_deadline k) u64_max max_tasks

deadline_scan-Best :
    (k : Sched) (left i best d : ℕ)
    → left + i ≡ max_tasks
    → Best (can_run_at k) (abs_deadline k) u64_max i best d
    → (d' : ℕ) × Best
        (can_run_at k)
        (abs_deadline k)
        u64_max
        max_tasks
        (deadline_scan left i best d k)
        d'
unfolding deadline_scan
deadline_scan-Best k zero i best d e b =
    (d, subst (λ n. Best (can_run_at k) (abs_deadline k) u64_max n best d) (omega arith) b)
deadline_scan-Best k (suc left) i best d e b =
    let better = can_run_at k i && ltb (abs_deadline k i) d in
    deadline_scan-Best k left (i + 1) (if better then i else best)
      (if better then abs_deadline k i else d) (omega arith)
      (step-Best (can_run_at k) (abs_deadline k) u64_max i best d b)

-- pick_deadline returns the earliest deadline among the DEADLINE tasks that are READY and have
-- runtime left, the first of equals, or INVALID_IDX while there is no such task (the largest u64
-- counting as no deadline).
pub pick_deadline-IsEarliest :
    (k : Sched)
    → (((pick_deadline k).0 ≡ invalid_idx) × NoDeadline k) ⊎ IsEarliest k (pick_deadline k).0
unfolding pick_deadline
pick_deadline-IsEarliest k =
    let r =
      deadline_scan-Best k max_tasks 0 invalid_idx u64_max refl
        (inl (refl, refl, λ j lt. absurd (omega arith))) in
    outcome r.0 r.1
  where
    outcome :
        (d : ℕ)
        → Best
            (can_run_at k)
            (abs_deadline k)
            u64_max
            max_tasks
            (deadline_scan max_tasks 0 invalid_idx u64_max k)
            d
        → ((deadline_scan max_tasks 0 invalid_idx u64_max k ≡ invalid_idx) × NoDeadline k)
          ⊎ IsEarliest k (deadline_scan max_tasks 0 invalid_idx u64_max k)
    outcome d (inl (e, t, none)) = inl (e, none)
    outcome d (inr (l, e)) = inr l
