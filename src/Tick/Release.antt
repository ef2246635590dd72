-- ===== src/Tick/Release.antt =====
-- A DEADLINE task that has used up its runtime sleeps until its next release.
use halaos_stm32f103_hardwar.Prelude.{
  ℕ, ◌+◌, ◌-◌, ◌<◌, ◌≡◌, refl, ap, ◌∙◌, subst, arith, ◌==◌, ltb, if◌then◌else◌, max, inc32, inl,
  inr, Bool-cases, u32_mod,
}
use halaos_stm32f103_hardwar.Chain.{max_tasks}
use halaos_stm32f103_hardwar.Kernel.{TaskState, Tcb, Sched}
use halaos_stm32f103_hardwar.Sleep.{set_task, sleep_insert}
use halaos_stm32f103_hardwar.Sleep.Frame.{Sleepers-frame, sleep_insert-SameButSleep}
use halaos_stm32f103_hardwar.Sleep.Insert.{sleep_insert-insert_due}
use halaos_stm32f103_hardwar.Sleep.Slots.{Entries, Sleepers, drop_task, insert_due}
use halaos_stm32f103_hardwar.Dispatch.{pend_resched}
use halaos_stm32f103_hardwar.Tick.{deadline_account, charge_deadline, throttle, release_wait}

-- The time at which a task that is throttled at `now` is due.
abbrev pub due_at : ℕ → Tcb → ℕ
due_at now t = if ltb now t.next_release then t.next_release else now + max 1 t.deadline_period

release_wait-due_at :
    (now : ℕ) (t : Tcb)
    → t.next_release < now + u32_mod
    → now + max 1 (release_wait now t) ≡ due_at now t
unfolding release_wait
release_wait-due_at now t near = ground arith

wait-small : (now : ℕ) (t : Tcb) → t.deadline_period < u32_mod → release_wait now t < u32_mod
unfolding release_wait
wait-small now t period = ground arith

-- A change of the task `i` that leaves its links alone keeps the sleepers.
relink-Sleepers :
    (i now : ℕ) (t : Tcb) (k : Sched) (es : Entries)
    → t.sleep_next ≡ (k.tasks i).sleep_next
    → t.sleep_delta ≡ (k.tasks i).sleep_delta
    → Sleepers k now es
    → Sleepers (set_task i t k) now es
relink-Sleepers i now t k es next delta v =
    Sleepers-frame k (set_task i t k) now es (λ x. (ground arith, ground arith)) refl v

-- What throttle makes of the running task and of the sleepers.
Throttled : Tcb → ℕ → ℕ → Entries → Sched → Type 0
Throttled t i now es r =
    Sleepers r now
      (if t.deadline_remaining == 0 then insert_due i (due_at now t) (drop_task i es) else es)
    × ((r.tasks i).state ≡ (if t.deadline_remaining == 0 then TaskState.sleep else t.state))
    × ((r.tasks i).deadline_remaining ≡ t.deadline_remaining)

throttle-Throttled :
    (k : Sched) (es : Entries)
    → Sleepers k k.ticks es
    → k.current < max_tasks
    → (k.tasks k.current).next_release < k.ticks + u32_mod
    → (k.tasks k.current).deadline_period < u32_mod
    → Throttled (k.tasks k.current) k.current k.ticks es (throttle k.current k)
unfolding throttle Throttled pend_resched
throttle-Throttled k es v lt near period =
    let i : ℕ = k.current in
    let t : Tcb = k.tasks i in
    let t' : Tcb = record t { throttle_count = inc32 t.throttle_count; state = TaskState.sleep } in
    let k₀ : Sched = record k { deadline_throttles = inc32 k.deadline_throttles } in
    let k' : Sched = set_task i t' k₀ in
    let wait : ℕ = release_wait k.ticks t in
    let r : Sched = sleep_insert i wait k' in
    elim (Bool-cases (t.deadline_remaining == 0)) [
      | inl spent ↦
          let v' =
            relink-Sleepers i k.ticks t' k₀ es refl refl
              (record { slots = v.slots; distinct = v.distinct }) in
          let w =
            sleep_insert-insert_due i wait k.ticks k' es v' lt (wait-small k.ticks t period) in
          let due = release_wait-due_at k.ticks t near in
          let same = (sleep_insert-SameButSleep i wait k').tasks i in
          let asleep : (k'.tasks i).state ≡ TaskState.sleep = ground arith in
          let left : (k'.tasks i).deadline_remaining ≡ t.deadline_remaining = ground arith in
          rw spent (
            Sleepers-frame r (pend_resched r) k.ticks
                (insert_due i (due_at k.ticks t) (drop_task i es)) (λ x. (refl, refl)) refl
                (subst (λ d. Sleepers r k.ticks (insert_due i d (drop_task i es))) due w),
            ap (λ (t : Tcb). t.state) same ∙ asleep,
            ap (λ (t : Tcb). t.deadline_remaining) same ∙ left,
          )
      | inr left ↦ rw left (v, refl, refl)
    ]

-- Where the sleep queue holds `es` at the current time, the running task is a valid one, its next
-- release is less than 2 ^ 32 ticks away and its period is a u32: deadline_account takes the step
-- off the runtime that the task has left, stopping at 0. At 0 the task is in state SLEEP and in
-- the sleep queue once, due exactly at its next release, if that is still to come, and otherwise
-- after its period, of at least one tick, behind all that are due no later; else its state and
-- the sleep queue are as they were.
pub deadline_account-release :
    (step : ℕ) (k : Sched) (es : Entries)
    → Sleepers k k.ticks es
    → k.current < max_tasks
    → (k.tasks k.current).next_release < k.ticks + u32_mod
    → (k.tasks k.current).deadline_period < u32_mod
    → let t = k.tasks k.current in
      let r = deadline_account k.current step k in
      let left = t.deadline_remaining - step in
      Sleepers r k.ticks
        (if left == 0 then insert_due k.current (due_at k.ticks t) (drop_task k.current es) else es)
      × ((r.tasks k.current).state ≡ (if left == 0 then TaskState.sleep else t.state))
      × ((r.tasks k.current).deadline_remaining ≡ left)
unfolding deadline_account charge_deadline Throttled
deadline_account-release step k es v lt near period =
    let i : ℕ = k.current in
    let t' : Tcb = charge_deadline k.ticks step (k.tasks i) in
    let misses : ℕ =
      if ltb (k.tasks i).abs_deadline k.ticks then inc32 k.deadline_misses else k.deadline_misses in
    let k₀ : Sched = record k { deadline_misses = misses } in
    let k' : Sched = set_task i t' k₀ in
    let here : k'.tasks i ≡ t' = ground arith in
    let v' =
      relink-Sleepers i k.ticks t' k₀ es refl refl
        (record { slots = v.slots; distinct = v.distinct }) in
    subst (λ (t : Tcb). Throttled t i k.ticks es (throttle i k')) here
      (throttle-Throttled k' es v' lt (rw here near) (rw here period))
