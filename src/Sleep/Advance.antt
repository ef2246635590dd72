-- ===== src/Sleep/Advance.antt =====
-- sleep_advance lets time pass and wakes the sleepers that are due.
use halaos_stm32f103_hardwar.Prelude.{
  ℕ, zero, suc, ◌+◌, ◌≤◌, ◌<◌, ◌≡◌, refl, sym, subst, ap, ◌∙◌, ◌||◌, inl, inr, true, false, [], ◌∷◌,
  ◌++◌, arith, ◌==◌, ltb, has, All, Distinct, length, Bool-cases, sub32, has-ne, u32_mod,
}
use halaos_stm32f103_hardwar.Chain.{invalid_idx, max_tasks}
use halaos_stm32f103_hardwar.Kernel.{TaskState, Sched}
use halaos_stm32f103_hardwar.Sleep.{sleep_advance, sleep_advance_loop, wake_head, set_sleep_delta}
use halaos_stm32f103_hardwar.Sleep.Slots.{
  Entries, names, Slots, Slots-frame, Slots-later, length-Slots, Sleepers, sleep_next, sleep_delta,
}
use halaos_stm32f103_hardwar.Sleep.Woke.{wake_head_lem}

absent-append : (x : ℕ) (a b : Entries) → has x (names (a ++ b)) ≡ false → has x (names a) ≡ false
absent-append x [] b h = refl
absent-append x ((y, u) ∷ a) b h = ground (arith, absent-append x a b)

Distinct-append : (a b : Entries) → Distinct (names (a ++ b)) → Distinct (names b)
Distinct-append [] b d = d
Distinct-append ((y, u) ∷ a) b d = Distinct-append a b d.1

-- The queue `es` of `k` at the end of a stretch of time, at `limit`: some entries are woken.
record Advanced (k : Sched) (top limit : ℕ) (es : Entries) (r : Sched) : Type 0 where
  woken : Entries
  rest : Entries
  split : es ≡ woken ++ rest
  slots : Slots (sleep_next r) (sleep_delta r) top limit r.sleep_head rest
  not_early : All (λ e. e.1 ≤ limit) woken
  not_late : All (λ e. limit ≤ e.1) rest
  ready : All (λ e. (r.tasks e.0).state ≡ TaskState.ready) woken
  others : (z : ℕ) → has z (names woken) ≡ false → (r.tasks z).state ≡ (k.tasks z).state

Slots-sorted :
    (f d : ℕ → ℕ) (top base h low : ℕ) (es : Entries)
    → low ≤ base
    → Slots f d top base h es
    → All (λ e. low ≤ e.1) es
Slots-sorted f d top base h low [] le s = tt
Slots-sorted f d top base h low ((x, t) ∷ es) le s =
    (omega arith, Slots-sorted f d top t (f x) low es (omega arith) s.4)

-- Time passes, and nobody is due before `limit`.
nobody :
    (k r : Sched) (top limit : ℕ) (es : Entries)
    → Slots (sleep_next r) (sleep_delta r) top limit r.sleep_head es
    → All (λ e. limit ≤ e.1) es
    → ((z : ℕ) → (r.tasks z).state ≡ (k.tasks z).state)
    → Advanced k top limit es r
nobody k r top limit es s late same = record {
  woken = [];
  rest = es;
  split = refl;
  slots = s;
  not_early = tt;
  not_late = late;
  ready = tt;
  others = λ z m. same z;
}

module _ (top : ℕ) where
  shorten :
      (k : Sched) (base elapsed x t : ℕ) (es : Entries)
      → top ≤ base + u32_mod
      → base + elapsed < t
      → Distinct (x ∷ names es)
      → k.sleep_head ≡ x
      → Slots (sleep_next k) (sleep_delta k) top base x ((x, t) ∷ es)
      → Advanced k top
          (base + elapsed)
          ((x, t) ∷ es)
          (set_sleep_delta x (sub32 (sleep_delta k x) elapsed) k)
  shorten k base elapsed x t es small soon d e s =
      let r : Sched = set_sleep_delta x (sub32 (sleep_delta k x) elapsed) k in
      let delta : sleep_delta r x ≡ sub32 (sleep_delta k x) elapsed = ground arith in
      let next : sleep_next r x ≡ sleep_next k x = ground arith in
      let kept =
        Slots-frame (sleep_next k) (sleep_next r) (sleep_delta k) (sleep_delta r) top t
          (sleep_next k x) es s.4 λ z m. ground (arith, has-ne x z (names es) m d.0) in
      nobody k r top (base + elapsed) ((x, t) ∷ es)
        (e, s.1, rw delta (omega arith), s.3, rw next kept)
        (
          omega arith,
          Slots-sorted (sleep_next k) (sleep_delta k) top t (sleep_next k x) (base + elapsed) es
              (omega arith) s.4,
        )
        (λ z. ground arith)

  wake-cons :
      (k : Sched) (limit x t : ℕ) (es : Entries)
      → t ≤ limit
      → has x (names es) ≡ false
      → (r : Sched) → Advanced (wake_head x k) top limit es r
      → Advanced k top limit ((x, t) ∷ es) r
  wake-cons k limit x t es le out r a = record {
    woken = (x, t) ∷ a.woken;
    rest = a.rest;
    split = ap (λ (l : Entries). (x, t) ∷ l) a.split;
    slots = a.slots;
    not_early = (le, a.not_early);
    not_late = a.not_late;
    ready = (
      a.others x (
            absent-append x a.woken a.rest
              (subst (λ (l : Entries). has x (names l) ≡ false) a.split out))
          ∙ (wake_head_lem x k).1,
      a.ready,
    );
    others = λ z m. a.others z (ground arith) ∙ ((wake_head_lem x k).2 z (ground arith)).2;
  }

  -- One round of the loop, given what the later rounds do once the head is awake.
  sleep_advance_round :
      (fuel base elapsed t : ℕ) (k : Sched) (es : Entries)
      → top ≤ base + u32_mod
      → elapsed < u32_mod
      → Distinct (k.sleep_head ∷ names es)
      → Slots (sleep_next k) (sleep_delta k) top base k.sleep_head ((k.sleep_head, t) ∷ es)
      → (t ≤ base + elapsed
          → Advanced (wake_head k.sleep_head k) top (base + elapsed) es (
              sleep_advance_loop fuel
                (sub32 elapsed (sleep_delta k k.sleep_head))
                (wake_head k.sleep_head k)))
      → Advanced k top
          (base + elapsed)
          ((k.sleep_head, t) ∷ es)
          (sleep_advance_loop (suc fuel) elapsed k)
  unfolding sleep_advance_loop
  sleep_advance_round fuel base elapsed t k es small e32 d s later =
      let h : ℕ = k.sleep_head in
      let other : (k.sleep_head == invalid_idx) ≡ false = ground arith in
      elim (Bool-cases (elapsed == 0)) [
        | inl over ↦ rw over (
            nobody k k top (base + elapsed) ((h, t) ∷ es) (refl, s.1, ground arith, s.3, s.4)
              (
                ground arith,
                Slots-sorted (sleep_next k) (sleep_delta k) top t (sleep_next k h) (base + elapsed)
                    es (ground arith) s.4,
              )
              (λ z. refl))
        | inr running ↦ elim (Bool-cases (ltb elapsed (sleep_delta k k.sleep_head))) [
          | inl soon ↦
              rw (running, other, soon)
                (shorten k base elapsed h t es small (ground arith) d refl s)
          | inr due ↦
              rw (running, other, due)
                (wake-cons k (base + elapsed) h t es (ground arith) d.0
                  (sleep_advance_loop fuel (sub32 elapsed (sleep_delta k h)) (wake_head h k))
                  (later (ground arith)))
        ]
      ]

  pub wake_head-Slots :
      (k : Sched) (t h : ℕ) (es : Entries)
      → has h (names es) ≡ false
      → Slots (sleep_next k) (sleep_delta k) top t (sleep_next k h) es
      → let r = wake_head h k in Slots (sleep_next r) (sleep_delta r) top t r.sleep_head es
  wake_head-Slots k t h es out s =
      let w = wake_head_lem h k in
      rw w.0 (
        Slots-frame (sleep_next k) (sleep_next (wake_head h k)) (sleep_delta k)
          (sleep_delta (wake_head h k)) top t (sleep_next k h) es s
          λ z m. let o = w.2 z (has-ne h z (names es) m out) in (o.0, o.1))

  sleep_advance_loop-Advanced :
      (fuel base elapsed : ℕ) (k : Sched) (es : Entries)
      → length (names es) < fuel
      → top ≤ base + u32_mod
      → elapsed < u32_mod
      → Distinct (names es)
      → Slots (sleep_next k) (sleep_delta k) top base k.sleep_head es
      → Advanced k top (base + elapsed) es (sleep_advance_loop fuel elapsed k)
  unfolding sleep_advance_loop
  sleep_advance_loop-Advanced zero base elapsed k es enough small e32 d s = absurd (omega arith)
  sleep_advance_loop-Advanced (suc f) base elapsed k [] enough small e32 d s =
      let done : (k.sleep_head == invalid_idx) ≡ true = ground arith in
      let stop : ((elapsed == 0) || (k.sleep_head == invalid_idx)) ≡ true = ground arith in
      rw stop (nobody k k top (base + elapsed) [] s tt (λ z. refl))
  sleep_advance_loop-Advanced (suc f) base elapsed k ((x, t) ∷ es) enough small e32 d s =
      let same : x ≡ k.sleep_head = sym s.0 in
      let s' =
        subst (λ y. Slots (sleep_next k) (sleep_delta k) top base k.sleep_head ((y, t) ∷ es)) same
          s in
      let d' = subst (λ y. Distinct (y ∷ names es)) same d in
      subst
        (λ y. Advanced k top (base + elapsed) ((y, t) ∷ es) (sleep_advance_loop (suc f) elapsed k))
        s.0
        (sleep_advance_round f base elapsed t k es small e32 d' s' λ le.
          let left : ℕ = sub32 elapsed (sleep_delta k k.sleep_head) in
          let end : base + elapsed ≡ t + left = omega arith in
          rw end (
            sleep_advance_loop-Advanced f t left (wake_head k.sleep_head k) es (omega arith)
              (omega arith) (omega arith) d'.1 (wake_head-Slots k t k.sleep_head es d'.0 s'.4)))

-- Where the sleep queue holds `es` at time `now`, and `elapsed` is a u32, sleep_advance leaves
-- `es` without a first part: none of the tasks in that part is woken before its time, and all of
-- them are READY; no task that stays was due before the new time; the queue is well formed at the
-- new time; and no other task changes its state.
pub sleep_advance-split :
    (elapsed now : ℕ) (k : Sched) (es : Entries)
    → Sleepers k now es
    → elapsed < u32_mod
    → let r = sleep_advance elapsed k in
      (woken rest : Entries) × (es ≡ woken ++ rest)
      × Sleepers r (now + elapsed) rest
      × All (λ e. e.1 ≤ now + elapsed) woken
      × All (λ e. now + elapsed ≤ e.1) rest
      × All (λ e. (r.tasks e.0).state ≡ TaskState.ready) woken
      × ((z : ℕ) → has z (names woken) ≡ false → (r.tasks z).state ≡ (k.tasks z).state)
unfolding sleep_advance
sleep_advance-split elapsed now k es v small =
    let top : ℕ = now + u32_mod in
    let a =
      sleep_advance_loop-Advanced top (max_tasks + 1) now elapsed k es
        (length-Slots (sleep_next k) (sleep_delta k) top now k.sleep_head es v.slots v.distinct)
        (omega arith) small v.distinct v.slots in
    let r : Sched = sleep_advance_loop (max_tasks + 1) elapsed k in
    (
      a.woken,
      a.rest,
      a.split,
      record {
        slots =
            Slots-later (sleep_next r) (sleep_delta r) top (now + elapsed + u32_mod) (now + elapsed)
              r.sleep_head a.rest (omega arith) a.slots;
        distinct =
            Distinct-append a.woken a.rest
              (subst (λ (l : Entries). Distinct (names l)) a.split v.distinct);
      },
      a.not_early,
      a.not_late,
      a.ready,
      a.others,
    )
