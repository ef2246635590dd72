-- ===== src/Load/Quiet.antt =====
-- load_disable_all (src/services/halaos_runtime.c) takes the load tasks off the ready queues.
use halaos_stm32f103_hardwar.Prelude.{
  ℕ, zero, suc, ◌+◌, ◌≤◌, ◌<◌, ◌≡◌, refl, sym, subst, ap, ◌∙◌, true, false, List, ◌==◌,
  if◌then◌else◌, if-cases, update, inl, inr, Bool-cases, eqb→eq, arith, has, eqb_refl, without,
  has-without, has-without_self,
}
use halaos_stm32f103_hardwar.Kernel.{TaskState, Tcb, Sched, is_rt_policy}
use halaos_stm32f103_hardwar.Ready.{level}
use halaos_stm32f103_hardwar.Sleep.{set_task}
use halaos_stm32f103_hardwar.Ready.Invariant.{IsReadyQueues, SameButLinks}
use halaos_stm32f103_hardwar.Ready.Frame.{IsReadyQueues-frame, rt_remove-SameButLinks}
use halaos_stm32f103_hardwar.Ready.Remove.{rt_remove-without}
use halaos_stm32f103_hardwar.Dispatch.{pend_resched}
use halaos_stm32f103_hardwar.Load.{off_queue, quiet, quiet_loop, load_disable_all}

off_queue-SameButLinks : (i : ℕ) (k : Sched) → SameButLinks k (off_queue i k)
unfolding off_queue
off_queue-SameButLinks i k =
    if-cases (SameButLinks k) (is_rt_policy (k.tasks i).policy) _ _
      (λ rt. rt_remove-SameButLinks i k) λ other x. refl

-- The lists behind a round.
abbrev off_lists : ℕ → Sched → (ℕ → List ℕ) → ℕ → List ℕ
off_lists i k qs =
    if is_rt_policy (k.tasks i).policy
    then update qs (level (k.tasks i)) (without i (qs (level (k.tasks i))))
    else qs

off_queue-queues :
    (i : ℕ) (k : Sched) (qs : ℕ → List ℕ)
    → IsReadyQueues k qs
    → IsReadyQueues (off_queue i k) (off_lists i k qs)
unfolding off_queue
off_queue-queues i k qs inv = elim (Bool-cases (is_rt_policy (k.tasks i).policy)) [
  | inl rt ↦ rw rt (rt_remove-without i k qs inv)
  | inr other ↦ rw other inv
]

-- A task that is in no queue stays so.
off_lists-out :
    (i j p : ℕ) (k : Sched) (qs : ℕ → List ℕ)
    → has j (qs p) ≡ false
    → has j (off_lists i k qs p) ≡ false
off_lists-out i j p k qs out =
    if-cases (λ (f : ℕ → List ℕ). has j (f p) ≡ false) (is_rt_policy (k.tasks i).policy) _ _
      (λ rt. elim (Bool-cases (p == level (k.tasks i))) [
        | inl same ↦ rw same (
            has-without i j (qs (level (k.tasks i)))
              (ap (λ n. has j (qs n)) (sym (eqb→eq p (level (k.tasks i)) same)) ∙ out))
        | inr other ↦ rw other out
      ])
      λ rest. out

off_lists_self :
    (i : ℕ) (k : Sched) (qs : ℕ → List ℕ)
    → is_rt_policy (k.tasks i).policy ≡ true
    → has i (off_lists i k qs (level (k.tasks i))) ≡ false
off_lists_self i k qs rt =
    let p : ℕ = level (k.tasks i) in
    let here : (p == p) ≡ true = eqb_refl p in rw (rt, here) (has-without_self i (qs p))

-- What a round does to each task: only task `i` changes, in its state and its load flag.
silence-task :
    (i x : ℕ) (k : Sched)
    → let r =
        set_task i (record (k.tasks i) { state = TaskState.blocked; load_enabled = false }) k in
      ((r.tasks x).policy ≡ (k.tasks x).policy)
      × (level (r.tasks x) ≡ level (k.tasks x))
      × ((r.tasks x).ready_next ≡ (k.tasks x).ready_next)
silence-task i x k = ground arith

-- Policies and levels are as they were.
abbrev pub SameKind : Sched → Sched → Type 0
SameKind k r =
    (x : ℕ) → ((r.tasks x).policy ≡ (k.tasks x).policy) × (level (r.tasks x) ≡ level (k.tasks x))

quiet-task :
    (i x : ℕ) (k : Sched)
    → (((quiet i k).tasks x).policy ≡ (k.tasks x).policy)
      × (level ((quiet i k).tasks x) ≡ level (k.tasks x))
unfolding quiet
quiet-task i x k =
    let e = off_queue-SameButLinks i k x in
    let s = silence-task i x (off_queue i k) in
    (s.0 ∙ ap (λ (t : Tcb). t.policy) e, s.1 ∙ ap (λ (t : Tcb). level t) e)

quiet-queues :
    (i : ℕ) (k : Sched) (qs : ℕ → List ℕ)
    → IsReadyQueues k qs
    → IsReadyQueues (quiet i k) (off_lists i k qs)
unfolding quiet
quiet-queues i k qs inv =
    let k₁ : Sched = off_queue i k in
    IsReadyQueues-frame k₁ (quiet i k) (off_lists i k qs)
      (λ x. let s = silence-task i x k₁ in (s.2, s.1)) refl refl refl (off_queue-queues i k qs inv)

-- BLOCKED, and not a task of the load any more.
abbrev pub IsIdle : Tcb → Type 0
IsIdle t = (t.state ≡ TaskState.blocked) × (t.load_enabled ≡ false)

quiet-IsIdle : (i : ℕ) (k : Sched) → IsIdle ((quiet i k).tasks i)
unfolding quiet
quiet-IsIdle i k = ground arith

quiet-stays : (i j : ℕ) (k : Sched) → IsIdle (k.tasks j) → IsIdle ((quiet i k).tasks j)
unfolding quiet
quiet-stays i j k (state, flag) =
    let e = off_queue-SameButLinks i k j in
    elim (Bool-cases (j == i)) [
      | inl same ↦ rw same (refl, refl)
      | inr other ↦
          rw other (ap (λ (t : Tcb). t.state) e ∙ state, ap (λ (t : Tcb). t.load_enabled) e ∙ flag)
    ]

-- Task `j` is idle and, if its policy is FIFO or RR, in no queue.
pub record Silenced (j : ℕ) (k : Sched) (qs : ℕ → List ℕ) : Type 0 where
  pub idle : IsIdle (k.tasks j)
  pub out : is_rt_policy (k.tasks j).policy ≡ true → has j (qs (level (k.tasks j))) ≡ false

abbrev pub AllSilenced : ℕ → Sched → (ℕ → List ℕ) → Type 0
AllSilenced i k qs = (j : ℕ) → 4 ≤ j → j < i → Silenced j k qs

quiet-Silenced : (i : ℕ) (k : Sched) (qs : ℕ → List ℕ) → Silenced i (quiet i k) (off_lists i k qs)
quiet-Silenced i k qs =
    let t = quiet-task i i k in
    record {
      idle = quiet-IsIdle i k;
      out = λ rt.
          subst (λ n. has i (off_lists i k qs n) ≡ false) (sym t.1)
            (off_lists_self i k qs (ap is_rt_policy (sym t.0) ∙ rt));
    }

quiet-keeps :
    (i j : ℕ) (k : Sched) (qs : ℕ → List ℕ)
    → Silenced j k qs
    → Silenced j (quiet i k) (off_lists i k qs)
quiet-keeps i j k qs s =
    let t = quiet-task i j k in
    record {
      idle = quiet-stays i j k s.idle;
      out = λ rt.
          subst (λ n. has j (off_lists i k qs n) ≡ false) (sym t.1)
            (off_lists-out i j (level (k.tasks j)) k qs (s.out (ap is_rt_policy (sym t.0) ∙ rt)));
    }

-- The lists behind the rounds that are left; `k` is the state before the first of them.
unfoldable pub all_off : ℕ → ℕ → Sched → (ℕ → List ℕ) → ℕ → List ℕ
all_off zero i k qs = qs
all_off (suc left) i k qs = all_off left (i + 1) k (off_lists i k qs)

off_lists_kind :
    (i : ℕ) (k r : Sched) (qs : ℕ → List ℕ) → SameKind k r → off_lists i r qs ≡ off_lists i k qs
off_lists_kind i k r qs same = let s = same i in rw (s.0, s.1) refl

-- What holds after the rounds for the tasks below `i`.
record Quieted (i : ℕ) (k r : Sched) (qs : ℕ → List ℕ) : Type 0 where
  kind : SameKind k r
  queues : IsReadyQueues r qs
  silenced : AllSilenced i r qs

quiet-Quieted :
    (i : ℕ) (k r : Sched) (qs : ℕ → List ℕ)
    → Quieted i k r qs
    → Quieted (i + 1) k (quiet i r) (off_lists i k qs)
quiet-Quieted i k r qs q =
    subst (Quieted (i + 1) k (quiet i r)) (off_lists_kind i k r qs q.kind) (record {
      kind = λ x. let t = quiet-task i x r in let s = q.kind x in (t.0 ∙ s.0, t.1 ∙ s.1);
      queues = quiet-queues i r qs q.queues;
      silenced = λ j lo hi. elim (Bool-cases (j == i)) [
        | inl same ↦ rw (eqb→eq j i same) (quiet-Silenced i r qs)
        | inr other ↦ quiet-keeps i j r qs (q.silenced j lo (ground arith))
      ];
    })

quiet_loop-Quieted :
    (left i : ℕ) (k r : Sched) (qs : ℕ → List ℕ)
    → Quieted i k r qs
    → Quieted (i + left) k (quiet_loop left i r) (all_off left i k qs)
unfolding quiet_loop all_off
quiet_loop-Quieted zero i k r qs q = let e : i + 0 ≡ i = omega arith in rw e q
quiet_loop-Quieted (suc left) i k r qs q =
    let e : i + suc left ≡ (i + 1) + left = omega arith in
    rw e
      (quiet_loop-Quieted left (i + 1) k (quiet i r) (off_lists i k qs) (quiet-Quieted i k r qs q))

-- Where the ready queues hold `qs`: after load_disable_all they hold `qs` without the tasks 4 to
-- 9 that have a FIFO or RR policy, the tasks 4 to 9 are BLOCKED without the load flag, and no
-- policy and no level changed.
pub load_disable_all-Silenced :
    (k : Sched) (qs : ℕ → List ℕ) (inv : IsReadyQueues k qs)
    → let r = load_disable_all k in
      let qs' = all_off 6 4 k qs in
      IsReadyQueues r qs' × AllSilenced 10 r qs' × SameKind k r × (r.load_mode ≡ 0)
unfolding load_disable_all pend_resched
load_disable_all-Silenced k qs inv =
    let q = quiet_loop-Quieted 6 4 k k qs (record {
      kind = λ x. (refl, refl);
      queues = inv;
      silenced = λ j lo hi. absurd (omega arith);
    }) in
    let r : Sched = load_disable_all k in
    (
      IsReadyQueues-frame (quiet_loop 6 4 k) r (all_off 6 4 k qs) (λ x. (refl, refl)) refl refl refl
          q.queues,
      λ j lo hi. let s = q.silenced j lo hi in record { idle = s.idle; out = s.out },
      q.kind,
      refl,
    )
