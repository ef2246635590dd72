-- ===== src/Load/Enable.antt =====
-- load_enable (src/services/halaos_runtime.c): what becomes of the ready queues and of the load tasks.
use halaos_stm32f103_hardwar.Prelude.{
  ℕ, ◌≤◌, ◌<◌, ◌≡◌, refl, sym, subst, ap, ◌∙◌, Bool, true, false, List, [], ◌∷◌, ◌++◌, ◌==◌,
  if◌then◌else◌, update, inl, inr, Bool-cases, eqb→eq, arith, has, has-append,
}
use halaos_stm32f103_hardwar.Kernel.{TaskState, Tcb, Sched}
use halaos_stm32f103_hardwar.Chain.{max_tasks}
use halaos_stm32f103_hardwar.Ready.{level, rt_enqueue}
use halaos_stm32f103_hardwar.Ready.Invariant.{IsReadyQueues}
use halaos_stm32f103_hardwar.Ready.Enqueue.{rt_enqueue-append}
use halaos_stm32f103_hardwar.Ready.Frame.{IsReadyQueues-frame, rt_enqueue-SameButLinks}
use halaos_stm32f103_hardwar.Sleep.{set_task}
use halaos_stm32f103_hardwar.Load.{
  enable_task, reset_ticks, enable_rr, enable_fair, enable_deadline, enable_fifo,
}
use halaos_stm32f103_hardwar.Load.Quiet.{SameKind}

abbrev pub state_of : Bool → TaskState
state_of on = if on then TaskState.ready else TaskState.blocked

-- `r` has the policies and the levels of `k` and the ready queues `qs`, and its load tasks are
-- READY with the load flag where `on` holds, and BLOCKED without it elsewhere.
pub record Loaded (k r : Sched) (qs : ℕ → List ℕ) (on : ℕ → Bool) : Type 0 where
  pub kind : SameKind k r
  pub queues : IsReadyQueues r qs
  pub states :
      (j : ℕ)
      → 4 ≤ j
      → j < 10
      → ((r.tasks j).state ≡ state_of (on j)) × ((r.tasks j).load_enabled ≡ on j)

-- Task `i` behind the others of its level.
abbrev pub put : ℕ → Sched → (ℕ → List ℕ) → ℕ → List ℕ
put i k qs = update qs (level (k.tasks i)) (qs (level (k.tasks i)) ++ (i ∷ []))

pub put-out :
    (i j p : ℕ) (k : Sched) (qs : ℕ → List ℕ)
    → (j == i) ≡ false
    → has j (qs p) ≡ false
    → has j (put i k qs p) ≡ false
put-out i j p k qs other out = elim (Bool-cases (p == level (k.tasks i))) [
  | inl same ↦
      let q = qs (level (k.tasks i)) in
      let before : has j q ≡ false =
        ap (λ n. has j (qs n)) (sym (eqb→eq p (level (k.tasks i)) same)) ∙ out in
      rw (same, has-append j q (i ∷ [])) (ground arith)
  | inr apart ↦ rw apart out
]

module _ (k r : Sched) (qs : ℕ → List ℕ) (on : ℕ → Bool) where
  -- A new value for task `i` that is READY and loaded, of its policy, level and link.
  set_task-Loaded :
      (i : ℕ) (t : Tcb)
      → ((t.policy ≡ (r.tasks i).policy)
          × (level t ≡ level (r.tasks i))
          × (t.ready_next ≡ (r.tasks i).ready_next))
      → t.state ≡ TaskState.ready
      → t.load_enabled ≡ true
      → Loaded k r qs on
      → Loaded k (set_task i t r) qs (update on i true)
  set_task-Loaded i t same ready flag h =
      let of_task : (x : ℕ)
          → (((set_task i t r).tasks x).policy ≡ (r.tasks x).policy)
            × (level ((set_task i t r).tasks x) ≡ level (r.tasks x))
            × (((set_task i t r).tasks x).ready_next ≡ (r.tasks x).ready_next) =
        λ x. elim (Bool-cases (x == i)) [
          | inl here ↦ rw (here, eqb→eq x i here) same
          | inr other ↦ rw other (refl, refl, refl)
        ] in
      record {
        kind = λ x. let s = of_task x in let e = h.kind x in (s.0 ∙ e.0, s.1 ∙ e.1);
        queues =
            IsReadyQueues-frame r (set_task i t r) qs (λ x. let s = of_task x in (s.2, s.1)) refl
              refl refl h.queues;
        states = λ j lo hi. elim (Bool-cases (j == i)) [
          | inl here ↦ rw here (ready, flag)
          | inr other ↦ rw other (h.states j lo hi)
        ];
      }

  rt_enqueue-Loaded :
      (i : ℕ)
      → i < max_tasks
      → has i (qs (level (k.tasks i))) ≡ false
      → Loaded k r qs on
      → Loaded k (rt_enqueue i r) (put i k qs) on
  rt_enqueue-Loaded i bound out h =
      let links = rt_enqueue-SameButLinks i r in
      let e : level (r.tasks i) ≡ level (k.tasks i) = (h.kind i).1 in
      record {
        kind = λ x.
            let s = h.kind x in
            (ap (λ (t : Tcb). t.policy) (links x) ∙ s.0, ap (λ (t : Tcb). level t) (links x) ∙ s.1);
        queues =
            subst (λ p. IsReadyQueues (rt_enqueue i r) (update qs p (qs p ++ (i ∷ [])))) e
              (rt_enqueue-append i r qs h.queues bound
                (subst (λ p. has i (qs p) ≡ false) (sym e) out));
        states = λ j lo hi.
            let s = h.states j lo hi in
            (
              ap (λ (t : Tcb). t.state) (links j) ∙ s.0,
              ap (λ (t : Tcb). t.load_enabled) (links j) ∙ s.1,
            );
      }

reset_ticks-Loaded :
    (i : ℕ) (k r : Sched) (qs : ℕ → List ℕ) (on : ℕ → Bool)
    → Loaded k r qs on
    → Loaded k (reset_ticks i r) qs on
reset_ticks-Loaded i k r qs on h = record {
  kind = h.kind;
  queues = IsReadyQueues-frame r (reset_ticks i r) qs (λ x. (refl, refl)) refl refl refl h.queues;
  states = h.states;
}

pub Loaded-on :
    (k r : Sched) (qs : ℕ → List ℕ) (on on' : ℕ → Bool)
    → ((j : ℕ) → 4 ≤ j → j < 10 → on j ≡ on' j)
    → Loaded k r qs on
    → Loaded k r qs on'
Loaded-on k r qs on on' same h = record {
  kind = h.kind;
  queues = h.queues;
  states =
      λ j lo hi. let e = same j lo hi in let s = h.states j lo hi in (s.0 ∙ ap state_of e, s.1 ∙ e);
}

update_twice : (on : ℕ → Bool) (i j : ℕ) → update (update on i true) i true j ≡ update on i true j
update_twice on i j = ground arith

module _ (i : ℕ) (k r : Sched) (qs : ℕ → List ℕ) (on : ℕ → Bool) (h : Loaded k r qs on) where
  enable_task-Loaded : Loaded k (enable_task i r) qs (update on i true)
  unfolding enable_task
  enable_task-Loaded =
      set_task-Loaded k r qs on i
        (record (r.tasks i) { state = TaskState.ready; load_enabled = true; runtime = 0 })
        (refl, refl, refl) refl refl h

  -- A task that was just enabled gets other values that leave its policy, level, link, state and
  -- load flag alone.
  again :
      (t : Tcb)
      → let u = (enable_task i r).tasks i in
        ((t.policy ≡ u.policy) × (level t ≡ level u) × (t.ready_next ≡ u.ready_next))
        → t.state ≡ TaskState.ready
        → t.load_enabled ≡ true
        → Loaded k (set_task i t (reset_ticks i (enable_task i r))) qs (update on i true)
  again t same ready flag =
      let r₁ : Sched = enable_task i r in
      let on₁ : ℕ → Bool = update on i true in
      let r₂ : Sched = set_task i t (reset_ticks i r₁) in
      Loaded-on k r₂ qs (update on₁ i true) on₁ (λ j lo hi. update_twice on i j)
        (set_task-Loaded k (reset_ticks i r₁) qs on₁ i t same ready flag
          (reset_ticks-Loaded i k r₁ qs on₁ enable_task-Loaded))

  enabled :
      (((enable_task i r).tasks i).state ≡ TaskState.ready)
      × (((enable_task i r).tasks i).load_enabled ≡ true)
  unfolding enable_task
  enabled = ground arith

  pub enable_rr-Loaded :
      i < max_tasks
      → has i (qs (level (k.tasks i))) ≡ false
      → Loaded k (enable_rr i r) (put i k qs) (update on i true)
  unfolding enable_rr
  enable_rr-Loaded bound out =
      let t = (enable_task i r).tasks i in
      let u : Tcb = record t { quantum_left = t.quantum } in
      rt_enqueue-Loaded k (set_task i u (reset_ticks i (enable_task i r))) qs (update on i true) i
        bound out (again u (refl, refl, refl) enabled.0 enabled.1)

  pub enable_fifo-Loaded :
      i < max_tasks
      → has i (qs (level (k.tasks i))) ≡ false
      → Loaded k (enable_fifo i r) (put i k qs) (update on i true)
  unfolding enable_fifo
  enable_fifo-Loaded bound out =
      rt_enqueue-Loaded k (enable_task i r) qs (update on i true) i bound out enable_task-Loaded

  pub enable_fair-Loaded :
      (base weight : ℕ) → Loaded k (enable_fair i base weight r) qs (update on i true)
  unfolding enable_fair
  enable_fair-Loaded base weight = again _ (refl, refl, refl) enabled.0 enabled.1

  pub enable_deadline-Loaded : Loaded k (enable_deadline i r) qs (update on i true)
  unfolding enable_deadline
  enable_deadline-Loaded = again _ (refl, refl, refl) enabled.0 enabled.1
