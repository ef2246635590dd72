-- ===== src/Systick/Slice.antt =====
-- The time slices of the running task.
use halaos_stm32f103_hardwar.Prelude.{
  ℕ, ◌+◌, ◌-◌, ◌≤◌, ◌<◌, ◌≡◌, refl, ap, ◌∙◌, List, arith, Bool, true, false, leb, max,
  if◌then◌else◌, update, inl, inr, Bool-cases, eqb_refl, ◌*◌, ◌/◌, ◌%◌, ◌^◌, add32, u32_mod,
  u64_mod,
}
use native.Mathlib.Nat.{
  div-le_self, div-eq_of_lt, le-div_iff_mul-le, div-mul-le_self, lt-div-mul-add,
}
use halaos_stm32f103_hardwar.Kernel.{Policy, Tcb, Sched}
use halaos_stm32f103_hardwar.Ready.{rt_rotate}
use halaos_stm32f103_hardwar.Ready.Invariant.{IsReadyQueues}
use halaos_stm32f103_hardwar.Ready.Frame.{IsReadyQueues-frame, rt_rotate-SameButLinks}
use halaos_stm32f103_hardwar.Ready.Rotate.{rotate, rt_rotate-rotate}
use halaos_stm32f103_hardwar.Sleep.{set_task}
use halaos_stm32f103_hardwar.Dispatch.{pend_resched}
use halaos_stm32f103_hardwar.Systick.{charge_rr, charge_fair, slice_limit, virtual_step}

-- A change of the quantum of a task keeps the ready queues.
requantum :
    (i q : ℕ) (k : Sched) (qs : ℕ → List ℕ)
    → IsReadyQueues k qs
    → IsReadyQueues (set_task i (record (k.tasks i) { quantum_left = q }) k) qs
requantum i q k qs inv =
    IsReadyQueues-frame k (set_task i (record (k.tasks i) { quantum_left = q }) k) qs
      (λ x. (ground arith, ground arith)) refl refl refl inv

-- Where the ready queues hold `qs` and the running task's quantum_left is positive and at most
-- its quantum, the same holds of quantum_left after the tick handler has charged an RR task for a
-- step; if the step uses up the quantum, its level's queue is rotated, and otherwise the ready
-- queues are as they were.
pub charge_rr-quantum :
    (step : ℕ) (k : Sched) (qs : ℕ → List ℕ)
    → IsReadyQueues k qs
    → 0 < (k.tasks k.current).quantum_left
    → (k.tasks k.current).quantum_left ≤ (k.tasks k.current).quantum
    → let t = k.tasks k.current in
      let r = charge_rr step k in
      (0 < (r.tasks k.current).quantum_left)
      × ((r.tasks k.current).quantum_left ≤ t.quantum)
      × IsReadyQueues r (
          if leb t.quantum_left step
          then update qs t.effective_prio (rotate (qs t.effective_prio))
          else qs)
unfolding charge_rr pend_resched
charge_rr-quantum step k qs inv pos whole =
    let i : ℕ = k.current in
    let t : Tcb = k.tasks i in
    elim (Bool-cases (leb t.quantum_left step)) [
      | inl over ↦
          let k' : Sched = set_task i (record t { quantum_left = t.quantum }) k in
          let p : ℕ = t.effective_prio in
          let r : Sched = rt_rotate p k' in
          let left : (r.tasks i).quantum_left ≡ t.quantum =
            ap (λ (t : Tcb). t.quantum_left) (rt_rotate-SameButLinks p k' i)
            ∙ ground (arith, eqb_refl i) in
          let rotated = rt_rotate-rotate p k' qs (requantum i t.quantum k qs inv) in
          rw over (
            rw left (omega arith),
            rw left (omega arith),
            IsReadyQueues-frame r (pend_resched r) (update qs p (rotate (qs p))) (λ x. (refl, refl))
                refl refl refl rotated,
          )
      | inr early ↦ rw early (
        ground (arith, eqb_refl i),
        ground (arith, eqb_refl i),
        requantum i (t.quantum_left - step) k qs inv,
      )
    ]

abbrev pub is_batch : Policy → Bool
is_batch Policy.batch = true
is_batch _ = false

slice_limit-is_batch : (p : Policy) → slice_limit p ≡ (if is_batch p then 8 else 4)
slice_limit-is_batch Policy.batch = refl
slice_limit-is_batch Policy.idle = refl
slice_limit-is_batch Policy.fifo = refl
slice_limit-is_batch Policy.rr = refl
slice_limit-is_batch Policy.normal = refl
slice_limit-is_batch Policy.deadline = refl

virtual_step-bounds :
    (step : ℕ) (t : Tcb)
    → 0 < t.weight
    → (0 < virtual_step step t) × (virtual_step step t < u32_mod)
virtual_step-bounds step t pos =
    let small = div-le_self (step * 1024 % u32_mod) t.weight in (omega arith, omega arith)

-- `growth` is `amount` divided by the weight, rounded down, and at least 1.
abbrev pub IsShare : ℕ → ℕ → ℕ → Type 0
IsShare amount weight growth =
    (amount < weight → growth ≡ 1)
    × (weight ≤ amount → (growth * weight ≤ amount) × (amount < growth * weight + weight))

virtual_step-IsShare :
    (step : ℕ) (t : Tcb)
    → 0 < t.weight
    → IsShare (step * 1024 % u32_mod) t.weight (virtual_step step t)
virtual_step-IsShare step t pos =
    let x : ℕ = step * 1024 % u32_mod in
    (
      (λ less. rw (div-eq_of_lt less) refl),
      λ more.
          let some_share : 1 ≤ x / t.weight = (le-div_iff_mul-le pos).1 (omega arith) in
          let whole : max 1 (x / t.weight) ≡ x / t.weight = omega arith in
          rw whole (div-mul-le_self x t.weight, lt-div-mul-add pos),
    )

-- For a running task of positive weight, whose virtual time has room for 2 ^ 32 more, whose slice
-- is not over (8 ticks for BATCH and 4 for the others), and a step below 2 ^ 31: after the tick
-- handler has charged a fair task for the step, its virtual time has grown by 1024 a tick, as a
-- u32, divided by the weight, rounded down and at least 1; its slice is not over; and its virtual
-- deadline is a new one, 8 or 4 times 1024 divided by the weight ahead, if the step ended the
-- slice, and as before otherwise.
pub charge_fair-slice :
    (step : ℕ) (k : Sched)
    → let t = k.tasks k.current in
      let limit : ℕ = if is_batch t.policy then 8 else 4 in
      0 < t.weight
      → t.vruntime + u32_mod ≤ u64_mod
      → t.slice_used < limit
      → step < 2 ^ 31
      → let t' = (charge_fair step k).tasks k.current in
        (t'.slice_used < limit)
        × (t.vruntime < t'.vruntime)
        × IsShare (step * 1024 % u32_mod) t.weight (t'.vruntime - t.vruntime)
        × (t'.virtual_deadline ≡ (
            if leb limit (t.slice_used + step)
            then (t'.vruntime + limit * 1024 / t.weight) % u64_mod
            else t.virtual_deadline))
unfolding charge_fair pend_resched
charge_fair-slice step k weight room slice small =
    let i : ℕ = k.current in
    let t : Tcb = k.tasks i in
    let limit : ℕ = if is_batch t.policy then 8 else 4 in
    let e : slice_limit t.policy ≡ limit = slice_limit-is_batch t.policy in
    let v = virtual_step-bounds step t weight in
    let share = virtual_step-IsShare step t weight in
    let grown : t.vruntime + virtual_step step t - t.vruntime ≡ virtual_step step t = omega arith in
    let vtime : (t.vruntime + virtual_step step t) % u64_mod ≡ t.vruntime + virtual_step step t =
      omega (arith, v, room) in
    let bounds : (0 < limit) × (limit ≤ 8) = ground arith in
    let used : add32 t.slice_used step ≡ t.slice_used + step = omega (arith, bounds) in
    elim (Bool-cases (leb limit (t.slice_used + step))) [
      | inl over ↦
          rw (e, used, vtime, over, eqb_refl i, grown) (bounds.0, omega (arith, v), share, refl)
      | inr early ↦
          rw (e, used, vtime, early, eqb_refl i, grown)
            (ground arith, omega (arith, v), share, refl)
    ]
