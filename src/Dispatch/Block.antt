-- ===== src/Dispatch/Block.antt =====
-- block_current: what becomes of the queues when the running task blocks or goes to sleep.
use halaos_stm32f103_hardwar.Prelude.{
  ℕ, ◌+◌, ◌<◌, ◌≡◌, refl, ap, ◌∙◌, List, arith, if◌then◌else◌, update, without, Bool-cases, inl,
  inr, max, u32_mod,
}
use halaos_stm32f103_hardwar.Chain.{max_tasks}
use halaos_stm32f103_hardwar.Kernel.{TaskState, Tcb, Sched, is_rt_policy, is_sleep}
use halaos_stm32f103_hardwar.Ready.{level, rt_remove}
use halaos_stm32f103_hardwar.Ready.Invariant.{IsReadyQueues}
use halaos_stm32f103_hardwar.Ready.Frame.{
  IsReadyQueues-frame, rt_remove-SameButLinks, rt_remove-same,
}
use halaos_stm32f103_hardwar.Ready.Remove.{rt_remove-without}
use halaos_stm32f103_hardwar.Sleep.{sleep_insert}
use halaos_stm32f103_hardwar.Sleep.Slots.{Entries, Sleepers, drop_task, insert_due}
use halaos_stm32f103_hardwar.Sleep.Frame.{Sleepers-frame, SameButSleep, sleep_insert-SameButSleep}
use halaos_stm32f103_hardwar.Sleep.Insert.{sleep_insert-insert_due}
use halaos_stm32f103_hardwar.Dispatch.{block_current, unready, set_blocked, sleep_if, pend_resched}

module _ (k : Sched) (qs : ℕ → List ℕ) where
  -- The ready queues once the current task is out of them, if its policy is real-time.
  abbrev pub without_current : ℕ → List ℕ
  without_current =
      let t = k.tasks k.current in
      if is_rt_policy t.policy then update qs (level t) (without k.current (qs (level t))) else qs

  unready-queues : IsReadyQueues k qs → IsReadyQueues (unready k.current k) without_current
  unfolding unready
  unready-queues inv = elim (Bool-cases (is_rt_policy (k.tasks k.current).policy)) [
    | inl rt ↦ rw rt (rt_remove-without k.current k qs inv)
    | inr other ↦ rw other inv
  ]

unready-Sleepers :
    (idx now : ℕ) (k : Sched) (es : Entries) → Sleepers k now es → Sleepers (unready idx k) now es
unfolding unready
unready-Sleepers idx now k es v = elim (Bool-cases (is_rt_policy (k.tasks idx).policy)) [
  | inl rt ↦ rw rt (
      Sleepers-frame k (rt_remove idx k) now es
        (λ x.
          let e = rt_remove-SameButLinks idx k x in
          (ap (λ (t : Tcb). t.sleep_next) e, ap (λ (t : Tcb). t.sleep_delta) e))
        (rt_remove-same idx k) v)
  | inr other ↦ rw other v
]

set_blocked-queues :
    (state : TaskState) (idx : ℕ) (k : Sched) (qs : ℕ → List ℕ)
    → IsReadyQueues k qs
    → IsReadyQueues (set_blocked state idx k) qs
unfolding set_blocked
set_blocked-queues state idx k qs inv =
    IsReadyQueues-frame k (set_blocked state idx k) qs (λ x. (ground arith, ground arith)) refl refl
      refl inv

set_blocked-Sleepers :
    (state : TaskState) (idx now : ℕ) (k : Sched) (es : Entries)
    → Sleepers k now es
    → Sleepers (set_blocked state idx k) now es
unfolding set_blocked
set_blocked-Sleepers state idx now k es v =
    Sleepers-frame k (set_blocked state idx k) now es (λ x. (ground arith, ground arith)) refl v

set_blocked-state :
    (state : TaskState) (idx : ℕ) (k : Sched) → ((set_blocked state idx k).tasks idx).state ≡ state
unfolding set_blocked
set_blocked-state state idx k = ground arith

SameButSleep-queues :
    (k r : Sched) (qs : ℕ → List ℕ) → SameButSleep k r → IsReadyQueues k qs → IsReadyQueues r qs
SameButSleep-queues k r qs same inv =
    IsReadyQueues-frame k r qs
      (λ x. let e = same.tasks x in (ap (λ (t : Tcb). t.ready_next) e, ap (λ (t : Tcb). level t) e))
      same.rt_head same.rt_tail same.rt_bitmap inv

-- The sleepers once the current task has asked to wait.
abbrev pub sleep_entries : TaskState → ℕ → ℕ → Entries → Entries
sleep_entries state idx due es =
    if is_sleep state then insert_due idx due (drop_task idx es) else es

-- What holds of the queues and of the new state of `idx`.
record Blocked (state : TaskState) (idx now : ℕ) (qs : ℕ → List ℕ) (es : Entries) (r : Sched)
    : Type 0 where
  queues : IsReadyQueues r qs
  sleepers : Sleepers r now es
  state_of : (r.tasks idx).state ≡ state

sleep_if-Blocked :
    (state : TaskState) (idx ticks now : ℕ) (k : Sched) (qs : ℕ → List ℕ) (es : Entries)
    → Blocked state idx now qs es k
    → idx < max_tasks
    → ticks < u32_mod
    → Blocked state idx now qs
        (sleep_entries state idx (now + max 1 ticks) es)
        (sleep_if state idx ticks k)
unfolding sleep_if
sleep_if-Blocked state idx ticks now k qs es b lt small = elim (Bool-cases (is_sleep state)) [
  | inl sleeps ↦
      let same = sleep_insert-SameButSleep idx ticks k in
      rw sleeps (record {
        queues = SameButSleep-queues k (sleep_insert idx ticks k) qs same b.queues;
        sleepers = sleep_insert-insert_due idx ticks now k es b.sleepers lt small;
        state_of = ap (λ (t : Tcb). t.state) (same.tasks idx) ∙ b.state_of;
      })
  | inr waits ↦ rw waits b
]

-- Where the ready queues hold `qs` and the sleep queue `es`, the current task is a valid one and
-- `ticks` is a u32: after block_current the current task has the new state; if its policy is FIFO
-- or RR it is in no queue of its level any more, and all other ready queues are as they were; if
-- the new state is SLEEP it is in the sleep queue once, due after `ticks` and at least one,
-- behind all that are due no later, and otherwise the sleep queue is as it was.
pub block_current-queues :
    (state : TaskState) (ticks now : ℕ) (k : Sched) (qs : ℕ → List ℕ) (es : Entries)
    → (inv : IsReadyQueues k qs) → Sleepers k now es
    → k.current < max_tasks
    → ticks < u32_mod
    → let r = block_current state ticks k in
      IsReadyQueues r (without_current k qs)
      × Sleepers r now (sleep_entries state k.current (now + max 1 ticks) es)
      × ((r.tasks k.current).state ≡ state)
unfolding block_current pend_resched
block_current-queues state ticks now k qs es inv v lt small =
    let idx : ℕ = k.current in
    let k₁ : Sched = unready idx k in
    let k₂ : Sched = set_blocked state idx k₁ in
    let k₃ : Sched = sleep_if state idx ticks k₂ in
    let r : Sched = block_current state ticks k in
    let qs' : ℕ → List ℕ = without_current k qs in
    let b =
      sleep_if-Blocked state idx ticks now k₂ qs' es
        (record {
          queues = set_blocked-queues state idx k₁ qs' (unready-queues k qs inv);
          sleepers = set_blocked-Sleepers state idx now k₁ es (unready-Sleepers idx now k es v);
          state_of = set_blocked-state state idx k₁;
        })
        lt small in
    (
      IsReadyQueues-frame k₃ r qs' (λ x. (refl, refl)) refl refl refl b.queues,
      Sleepers-frame k₃ r now (sleep_entries state idx (now + max 1 ticks) es) (λ x. (refl, refl))
          refl b.sleepers,
      b.state_of,
    )
