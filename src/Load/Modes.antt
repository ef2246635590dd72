-- ===== src/Load/Modes.antt =====
-- load_enable (src/services/halaos_runtime.c): its parts in a row, for each mode.
use halaos_stm32f103_hardwar.Prelude.{
  ℕ, ◌≤◌, ◌<◌, ◌≡◌, refl, subst, ap, ◌∙◌, Bool, true, false, List, ◌==◌, ◌||◌, ◌&&◌, if◌then◌else◌,
  update, arith, has,
}
use halaos_stm32f103_hardwar.Kernel.{Sched, is_rt_policy}
use halaos_stm32f103_hardwar.Ready.{level}
use halaos_stm32f103_hardwar.Ready.Invariant.{IsReadyQueues}
use halaos_stm32f103_hardwar.Ready.Frame.{IsReadyQueues-frame}
use halaos_stm32f103_hardwar.Dispatch.{pend_resched}
use halaos_stm32f103_hardwar.Load.{
  load_disable_all, restart_ticks, enable_rr, enable_fair, load_enable,
}
use halaos_stm32f103_hardwar.Load.Quiet.{all_off, load_disable_all-Silenced}
use halaos_stm32f103_hardwar.Load.Enable.{
  Loaded, Loaded-on, put, put-out, enable_rr-Loaded, enable_fair-Loaded, enable_deadline-Loaded,
  enable_fifo-Loaded,
}

-- The modes that run task `j`.
abbrev pub runs_in : ℕ → ℕ → Bool
runs_in mode j =
    if (j == 4) || (j == 5)
    then (mode == 1) || (mode == 4)
    else if j == 6
    then mode == 6
    else if (j == 7) || (j == 8)
    then ((mode == 2) || (mode == 4)) || (mode == 5)
    else (j == 9) && ((mode == 3) || (mode == 4))

-- The ready queues of a mode: all load tasks off, then those of the mode at the ends.
abbrev pub load_lists : ℕ → Sched → (ℕ → List ℕ) → ℕ → List ℕ
load_lists mode k qs =
    let off = all_off 6 4 k qs in
    let rr = if (mode == 1) || (mode == 4) then put 5 k (put 4 k off) else off in
    if mode == 6 then put 6 k rr else rr

if-Loaded :
    (b : Bool) (k r r' : Sched) (qs qs' : ℕ → List ℕ) (on on' : ℕ → Bool)
    → Loaded k r' qs' on'
    → Loaded k r qs on
    → Loaded k (if b then r' else r) (if b then qs' else qs) (λ j. if b then on' j else on j)
if-Loaded true k r r' qs qs' on on' h' h = h'
if-Loaded false k r r' qs qs' on on' h' h = h

-- A part that touches no queue.
if_same-Loaded :
    (b : Bool) (k r r' : Sched) (qs : ℕ → List ℕ) (on on' : ℕ → Bool)
    → Loaded k r' qs on'
    → Loaded k r qs on
    → Loaded k (if b then r' else r) qs (λ j. if b then on' j else on j)
if_same-Loaded true k r r' qs on on' h' h = h'
if_same-Loaded false k r r' qs on on' h' h = h

-- Task `i` is in no queue of its level.
abbrev Out : ℕ → Sched → (ℕ → List ℕ) → Type 0
Out i k qs = has i (qs (level (k.tasks i))) ≡ false

module _ (k r : Sched) (qs : ℕ → List ℕ) (on : ℕ → Bool) (h : Loaded k r qs on) where
  rr_part-Loaded :
      Out 4 k qs
      → Out 5 k qs
      → Loaded k
          (enable_rr 5 (enable_rr 4 r))
          (put 5 k (put 4 k qs))
          (update (update on 4 true) 5 true)
  rr_part-Loaded out₄ out₅ =
      enable_rr-Loaded 5 k (enable_rr 4 r) (put 4 k qs) (update on 4 true)
        (enable_rr-Loaded 4 k r qs on h (omega arith) out₄) (omega arith)
        (put-out 4 5 (level (k.tasks 5)) k qs refl out₅)

  fair_part-Loaded :
      (base w₇ w₈ : ℕ)
      → Loaded k
          (enable_fair 8 base w₈ (enable_fair 7 base w₇ r))
          qs
          (update (update on 7 true) 8 true)
  fair_part-Loaded base w₇ w₈ =
      enable_fair-Loaded 8 k (enable_fair 7 base w₇ r) qs (update on 7 true)
        (enable_fair-Loaded 7 k r qs on h base w₇) base w₈

put_if-Out :
    (b : Bool) (k : Sched) (qs : ℕ → List ℕ)
    → Out 6 k qs
    → Out 6 k (if b then put 5 k (put 4 k qs) else qs)
put_if-Out true k qs out =
    let p : ℕ = level (k.tasks 6) in put-out 5 6 p k (put 4 k qs) refl (put-out 4 6 p k qs refl out)
put_if-Out false k qs out = out

-- What the tests of load_enable on the mode leave of `runs_in`.
runs_in-parts :
    (mode j : ℕ)
    → 4 ≤ j
    → j < 10
    → let none : ℕ → Bool = λ j. false in
      let rr : ℕ → Bool =
        λ j. if (mode == 1) || (mode == 4) then update (update none 4 true) 5 true j else none j in
      let fair : ℕ → Bool =
        λ j. if (mode == 2) || (mode == 4) then update (update rr 7 true) 8 true j else rr j in
      let weighted : ℕ → Bool =
        λ j. if mode == 5 then update (update fair 7 true) 8 true j else fair j in
      let due : ℕ → Bool =
        λ j. if (mode == 3) || (mode == 4) then update weighted 9 true j else weighted j in
      (if mode == 6 then update due 6 true j else due j) ≡ runs_in mode j
runs_in-parts mode j lo hi = ground arith

-- load_disable_all on the state that load_enable hands it, and the new mode.
off-Loaded :
    (mode : ℕ) (k : Sched) (qs : ℕ → List ℕ)
    → IsReadyQueues k qs
    → let k₁ = restart_ticks k in
      let off = all_off 6 4 k qs in
      let r = record (load_disable_all k₁) { load_mode = mode } in
      Loaded k r off (λ j. false)
      × ((j : ℕ) → 4 ≤ j → j < 10 → is_rt_policy (k.tasks j).policy ≡ true → Out j k off)
unfolding all_off
off-Loaded mode k qs inv =
    let k₁ : Sched = restart_ticks k in
    let off : ℕ → List ℕ = all_off 6 4 k qs in
    let d =
      load_disable_all-Silenced k₁ qs
        (IsReadyQueues-frame k k₁ qs (λ x. (refl, refl)) refl refl refl inv) in
    let r : Sched = record (load_disable_all k₁) { load_mode = mode } in
    (
      record {
        kind = d.2;
        queues =
            IsReadyQueues-frame (load_disable_all k₁) r off (λ x. (refl, refl)) refl refl refl d.0;
        states = λ j lo hi. (d.1 j lo hi).idle;
      },
      λ j lo hi rt.
          let kind = d.2 j in
          subst (λ n. has j (off n) ≡ false) kind.1
            ((d.1 j lo hi).out (ap is_rt_policy kind.0 ∙ rt)),
    )

pended :
    (k r : Sched) (qs : ℕ → List ℕ) (on : ℕ → Bool)
    → Loaded k r qs on
    → Loaded k (pend_resched r) qs on
unfolding pend_resched
pended k r qs on h = record {
  kind = h.kind;
  queues = IsReadyQueues-frame r (pend_resched r) qs (λ x. (refl, refl)) refl refl refl h.queues;
  states = h.states;
}

-- Where the ready queues are well formed and the tasks 4, 5 and 6 have a FIFO or RR policy: after
-- load_enable of any mode the ready queues are well formed and hold what they held without the
-- load tasks, then tasks 4 and 5 at the ends of their levels in the modes 1 and 4, and task 6 in
-- mode 6; of the tasks 4 to 9 exactly those that run in the mode are READY with the load flag,
-- and the others BLOCKED without it; and no policy and no level of a task changed.
pub load_enable-Loaded :
    (mode : ℕ) (k : Sched) (qs : ℕ → List ℕ)
    → IsReadyQueues k qs
    → is_rt_policy (k.tasks 4).policy ≡ true
    → is_rt_policy (k.tasks 5).policy ≡ true
    → is_rt_policy (k.tasks 6).policy ≡ true
    → Loaded k (load_enable mode k) (load_lists mode k qs) (runs_in mode)
unfolding load_enable
load_enable-Loaded mode k qs inv rt₄ rt₅ rt₆ =
    let k₁ : Sched = restart_ticks k in
    let off : ℕ → List ℕ = all_off 6 4 k qs in
    let start = off-Loaded mode k qs inv in
    let out = start.1 in
    let in_rr : Bool = (mode == 1) || (mode == 4) in
    let k₂ : Sched = record (load_disable_all k₁) { load_mode = mode } in
    let k₃ : Sched = if in_rr then enable_rr 5 (enable_rr 4 k₂) else k₂ in
    let rr : ℕ → List ℕ = if in_rr then put 5 k (put 4 k off) else off in
    let h₃ =
      if-Loaded in_rr k k₂ (enable_rr 5 (enable_rr 4 k₂)) off (put 5 k (put 4 k off)) _ _
        (rr_part-Loaded k k₂ off _ start.0 (out 4 (omega arith) (omega arith) rt₄)
          (out 5 (omega arith) (omega arith) rt₅))
        start.0 in
    let base : ℕ = (k₃.tasks 1).vruntime in
    let h₄ =
      if_same-Loaded ((mode == 2) || (mode == 4)) k k₃ _ rr _ _
        (fair_part-Loaded k k₃ rr _ h₃ base 100 100) h₃ in
    let h₅ =
      if_same-Loaded (mode == 5) k _ _ rr _ _ (fair_part-Loaded k _ rr _ h₄ base 200 100) h₄ in
    let h₆ =
      if_same-Loaded ((mode == 3) || (mode == 4)) k _ _ rr _ _
        (enable_deadline-Loaded 9 k _ rr _ h₅) h₅ in
    let h₇ =
      if-Loaded (mode == 6) k _ _ rr (put 6 k rr) _ _
        (enable_fifo-Loaded 6 k _ rr _ h₆ (omega arith)
          (put_if-Out in_rr k off (out 6 (omega arith) (omega arith) rt₆)))
        h₆ in
    pended k _ (load_lists mode k qs) (runs_in mode)
      (Loaded-on k _ (load_lists mode k qs) _ (runs_in mode) (runs_in-parts mode) h₇)
