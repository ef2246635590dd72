-- ===== src/Dispatch/Precedes.antt =====
-- The order that task_precedes of src/kernel/halaos_kernel.c puts on the tasks.
use halaos_stm32f103_hardwar.Prelude.{
  ℕ, ◌≡◌, ◌⊎◌, inl, inr, refl, sym, ◌∙◌, Bool, true, false, ◌&&◌, ◌||◌, ltb, arith,
}
use halaos_stm32f103_hardwar.Kernel.{Policy, Tcb, is_rt_policy, is_fair_policy, is_deadline}
use halaos_stm32f103_hardwar.Dispatch.{task_precedes}

-- DEADLINE tasks come first, real-time tasks second, all others last.
unfoldable pub rank : Policy → ℕ
rank Policy.deadline = 0
rank Policy.fifo = 1
rank Policy.rr = 1
rank _ = 2

-- What the tests of task_precedes say of a policy.
Class : Policy → Type 0
Class p =
    ((is_deadline p ≡ true) × (is_rt_policy p ≡ false) × (is_fair_policy p ≡ false) × (rank p ≡ 0))
    ⊎ (((is_deadline p ≡ false)
          × (is_rt_policy p ≡ true)
          × (is_fair_policy p ≡ false)
          × (rank p ≡ 1))
        ⊎ ((is_deadline p ≡ false) × (is_rt_policy p ≡ false) × (rank p ≡ 2)))

Policy-Class : (p : Policy) → Class p
unfolding Class rank is_deadline is_rt_policy is_fair_policy
Policy-Class Policy.deadline = inl (refl, refl, refl, refl)
Policy-Class Policy.fifo = inr (inl (refl, refl, refl, refl))
Policy-Class Policy.rr = inr (inl (refl, refl, refl, refl))
Policy-Class Policy.normal = inr (inr (refl, refl, refl))
Policy-Class Policy.batch = inr (inr (refl, refl, refl))
Policy-Class Policy.idle = inr (inr (refl, refl, refl))

-- `a` is of a better class than `b`, or both are real-time tasks and it has the higher priority
-- (the smaller number), or both are fair tasks and it has the earlier virtual deadline.
abbrev pub before : Tcb → Tcb → Bool
before a b =
    ltb (rank a.policy) (rank b.policy)
    || (is_rt_policy a.policy && is_rt_policy b.policy && ltb a.effective_prio b.effective_prio)
    || (is_fair_policy a.policy
        && is_fair_policy b.policy
        && ltb a.virtual_deadline b.virtual_deadline)

-- task_precedes holds exactly if the first task is of a better class (DEADLINE before real-time
-- before all others), or both are real-time tasks and it has the smaller priority number, or both
-- are fair tasks and it has the smaller virtual deadline.
pub task_precedes-before : (a b : Tcb) → task_precedes a b ≡ before a b
unfolding task_precedes Class
task_precedes-before a b = elim (Policy-Class a.policy) [
  | inl (d, r, f, n) ↦ elim (Policy-Class b.policy) [
    | inl (d', r', f', n') ↦ ground arith
    | inr (inl (d', r', f', n')) ↦ ground arith
    | inr (inr (d', r', n')) ↦ ground arith
  ]
  | inr (inl (d, r, f, n)) ↦ elim (Policy-Class b.policy) [
    | inl (d', r', f', n') ↦ ground arith
    | inr (inl (d', r', f', n')) ↦ ground arith
    | inr (inr (d', r', n')) ↦ ground arith
  ]
  | inr (inr (d, r, n)) ↦ elim (Policy-Class b.policy) [
    | inl (d', r', f', n') ↦ ground arith
    | inr (inl (d', r', f', n')) ↦ ground arith
    | inr (inr (d', r', n')) ↦ ground arith
  ]
]

asym : (a b : Tcb) → before a b ≡ true → before b a ≡ false
unfolding Class
asym a b first = grind (arith, Policy-Class a.policy, Policy-Class b.policy)

-- If `a` precedes `b`, then `b` does not precede `a`.
pub task_precedes-asymmetric : (a b : Tcb) → task_precedes a b ≡ true → task_precedes b a ≡ false
task_precedes-asymmetric a b first =
    let ab : before a b ≡ true = sym (task_precedes-before a b) ∙ first in
    task_precedes-before b a ∙ asym a b ab

before_trans : (a b c : Tcb) → before a b ≡ true → before b c ≡ true → before a c ≡ true
unfolding Class
before_trans a b c first second =
    grind (arith, Policy-Class a.policy, Policy-Class b.policy, Policy-Class c.policy)

-- If task_precedes holds of `a` and `b`, and of `b` and `c`, then it holds of `a` and `c`.
pub task_precedes_trans :
    (a b c : Tcb) → task_precedes a b ≡ true → task_precedes b c ≡ true → task_precedes a c ≡ true
task_precedes_trans a b c first second =
    task_precedes-before a c
    ∙ before_trans a b c (sym (task_precedes-before a b) ∙ first)
        (sym (task_precedes-before b c) ∙ second)
