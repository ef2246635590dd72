-- ===== src/Sleep/Woke.antt =====
-- What waking a task does to the sleep queue of src/kernel/halaos_kernel.c: task_make_ready and a
-- round of sleep_advance.
use halaos_stm32f103_hardwar.Prelude.{
  ℕ, ◌≡◌, refl, ap, ◌∙◌, inl, inr, true, false, arith, ◌==◌, Bool-cases,
}
use halaos_stm32f103_hardwar.Kernel.{TaskState, Tcb, Sched, is_ready, is_rt_policy}
use halaos_stm32f103_hardwar.Ready.Frame.{rt_enqueue-SameButLinks, rt_enqueue-same}
use halaos_stm32f103_hardwar.Ready.Invariant.{SameButLinks}
use halaos_stm32f103_hardwar.Sleep.{wake_head, task_make_ready, enlist, mark_ready, refill, detach}
use halaos_stm32f103_hardwar.Sleep.Slots.{sleep_next, sleep_delta}

state : Sched → ℕ → TaskState
state k x = (k.tasks x).state

-- What task_make_ready does to the fields that the sleep queue reads.
pub record Woke (idx : ℕ) (k r : Sched) : Type 0 where
  pub ready : (r.tasks idx).state ≡ TaskState.ready
  pub others :
      (z : ℕ)
      → (z == idx) ≡ false
      → (sleep_next r z ≡ sleep_next k z)
        × (sleep_delta r z ≡ sleep_delta k z)
        × ((r.tasks z).state ≡ (k.tasks z).state)
  pub head : r.sleep_head ≡ k.sleep_head
  pub ticks : r.ticks ≡ k.ticks

is_ready_sound : (s : TaskState) → is_ready s ≡ true → s ≡ TaskState.ready
unfolding is_ready
is_ready_sound TaskState.ready h = refl
is_ready_sound TaskState.sleep h = cc
is_ready_sound TaskState.blocked h = cc
is_ready_sound TaskState.zombie h = cc
is_ready_sound TaskState.stopped h = cc

module _ (idx : ℕ) (k : Sched) where
  pub enlist-SameButLinks : SameButLinks k (enlist idx k)
  unfolding enlist
  enlist-SameButLinks z = elim (Bool-cases (is_rt_policy (k.tasks idx).policy)) [
    | inl rt ↦ rw rt (rt_enqueue-SameButLinks idx k z)
    | inr other ↦ rw other
  ]

  enlist-same : ((enlist idx k).sleep_head ≡ k.sleep_head) × ((enlist idx k).ticks ≡ k.ticks)
  unfolding enlist
  enlist-same = ground (arith, rt_enqueue-same idx k)

  mark_ready-Woke : Woke idx k (mark_ready idx k)
  unfolding mark_ready
  mark_ready-Woke = record {
    ready = ground arith;
    others = λ z n. ground arith;
    head = refl;
    ticks = refl;
  }

enlist-Woke : (idx : ℕ) (k r : Sched) → Woke idx k r → Woke idx k (enlist idx r)
enlist-Woke idx k r w = record {
  ready = rw (enlist-SameButLinks idx r idx) w.ready;
  others = λ z n.
      let e = enlist-SameButLinks idx r z in
      let o = w.others z n in
      (
        ap (λ (t : Tcb). t.sleep_next) e ∙ o.0,
        ap (λ (t : Tcb). t.sleep_delta) e ∙ o.1,
        ap (λ (t : Tcb). t.state) e ∙ o.2,
      );
  head = (enlist-same idx r).0 ∙ w.head;
  ticks = (enlist-same idx r).1 ∙ w.ticks;
}

pub task_make_ready-Woke : (idx : ℕ) (k : Sched) → Woke idx k (task_make_ready idx k)
unfolding task_make_ready
task_make_ready-Woke idx k = elim (Bool-cases (is_ready (k.tasks idx).state)) [
  | inl ready ↦ rw ready (record {
    ready = is_ready_sound (k.tasks idx).state ready;
    others = λ z n. (refl, refl, refl);
    head = refl;
    ticks = refl;
  })
  | inr asleep ↦
      let w = enlist-Woke idx k (mark_ready idx k) (mark_ready-Woke idx k) in
      rw asleep (record { ready = w.ready; others = w.others; head = w.head; ticks = w.ticks })
]

refill-same :
    (h : ℕ) (k : Sched)
    → let r = refill h k in
      (r.sleep_head ≡ k.sleep_head)
      × (r.ticks ≡ k.ticks)
      × ((z : ℕ) → (z == h) ≡ false → r.tasks z ≡ k.tasks z)
unfolding refill
refill-same h k = (ground arith, ground arith, λ z n. ground arith)

-- The head is off the queue and READY; no other task's sleep state changes.
pub wake_head_lem :
    (h : ℕ) (k : Sched)
    → let r = wake_head h k in
      (r.sleep_head ≡ sleep_next k h)
      × ((r.tasks h).state ≡ TaskState.ready)
      × ((z : ℕ)
          → (z == h) ≡ false
          → (sleep_next r z ≡ sleep_next k z)
            × (sleep_delta r z ≡ sleep_delta k z)
            × ((r.tasks z).state ≡ (k.tasks z).state))
unfolding wake_head detach
wake_head_lem h k =
    let k₁ : Sched = detach h k in
    let f = refill-same h k₁ in
    let w = task_make_ready-Woke h (refill h k₁) in
    (w.head ∙ f.0, w.ready, λ z n. ground (arith, w.others z n, f.2 z n))
