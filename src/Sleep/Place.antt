-- ===== src/Sleep/Place.antt =====
-- The writes of sleep_insert at the place that its loop finds.
use halaos_stm32f103_hardwar.Prelude.{
  ℕ, zero, suc, ◌+◌, ◌-◌, ◌≤◌, ◌<◌, ◌≡◌, refl, ◌∙◌, ◌⊎◌, inl, inr, true, false, [], ◌∷◌, arith,
  ◌==◌, ltb, has, Distinct, length, Bool-cases, if◌then◌else◌, sub32, eqb_refl, has-ne, u32_mod,
}
use halaos_stm32f103_hardwar.Chain.{invalid_idx, max_tasks}
use halaos_stm32f103_hardwar.Kernel.{Sched}
use halaos_stm32f103_hardwar.Sleep.{sleep_insert_loop, place_sleeper}
use halaos_stm32f103_hardwar.Sleep.Slots.{
  Entries, names, insert_due, Later, insert_due_first, head_ne, head_apart, Slots, Slots-frame,
  sleep_next, sleep_delta,
}

module _ (k : Sched) (idx prev cur remain : ℕ) where
  next-place :
      (z : ℕ)
      → sleep_next (place_sleeper idx prev cur remain k) z ≡ (
          if prev == invalid_idx
          then (if z == idx then cur else sleep_next k z)
          else if z == prev
          then idx
          else if z == idx
          then cur
          else sleep_next k z)
  unfolding place_sleeper
  next-place z = ground arith

  delta-place :
      (z : ℕ)
      → (cur == idx) ≡ false
      → sleep_delta (place_sleeper idx prev cur remain k) z ≡ (
          if z == idx
          then remain
          else if cur == invalid_idx
          then sleep_delta k z
          else if z == cur
          then sub32 (sleep_delta k z) remain
          else sleep_delta k z)
  unfolding place_sleeper
  delta-place z h = ground arith

  pub head-place :
      (place_sleeper idx prev cur remain k).sleep_head
      ≡ (if prev == invalid_idx then idx else k.sleep_head)
  unfolding place_sleeper
  head-place = ground arith

-- The part of the queue behind `prev` after `idx` has come in, due at `time`.
pub record Put (k : Sched) (idx time top base prev : ℕ) (es : Entries) (r : Sched) : Type 0 where
  pub slots :
      Slots (sleep_next r) (sleep_delta r) top base (sleep_next r prev) (insert_due idx time es)
  pub delta : sleep_delta r prev ≡ sleep_delta k prev
  same :
      (x : ℕ)
      → has x (prev ∷ idx ∷ names es) ≡ false
      → (sleep_next r x ≡ sleep_next k x) × (sleep_delta r x ≡ sleep_delta k x)
  pub head : r.sleep_head ≡ k.sleep_head

module _ (k : Sched) (idx top : ℕ) (bound : idx < max_tasks) where
  -- Where the writes land, for the task `z` of an entry that is not the first behind `idx`.
  untouched :
      (prev cur remain z : ℕ)
      → (cur == idx) ≡ false
      → (z == prev) ≡ false
      → (z == idx) ≡ false
      → ((cur == invalid_idx) ≡ true) ⊎ ((z == cur) ≡ false)
      → let r = place_sleeper idx prev cur remain k in
        (sleep_next r z ≡ sleep_next k z) × (sleep_delta r z ≡ sleep_delta k z)
  untouched prev cur remain z apart a b c = (
    ground (arith, next-place k idx prev cur remain z),
    ground (arith, delta-place k idx prev cur remain z apart),
  )

  pub place-Slots :
      (prev base time cur remain : ℕ) (es : Entries)
      → top ≤ base + u32_mod
      → time < top
      → base + remain ≡ time
      → (prev == idx) ≡ false
      → has prev (names es) ≡ false
      → has idx (names es) ≡ false
      → Distinct (names es)
      → Slots (sleep_next k) (sleep_delta k) top base cur es
      → Later time es
      → let r = place_sleeper idx prev cur remain k in
        Slots (sleep_next r) (sleep_delta r) top base idx ((idx, time) ∷ es)
  place-Slots prev base time cur remain [] small low due ne out out' d s later =
      let r : Sched = place_sleeper idx prev cur remain k in
      let apart : (cur == idx) ≡ false = ground arith in
      (
        refl,
        bound,
        rw (delta-place k idx prev cur remain idx apart, eqb_refl idx) due,
        low,
        ground (arith, next-place k idx prev cur remain idx),
      )
  place-Slots prev base time cur remain ((x, t) ∷ es) small low due ne out out' d s later =
      let r : Sched = place_sleeper idx prev cur remain k in
      let apart : (cur == idx) ≡ false = ground arith in
      let x_idx : (x == idx) ≡ false = ground arith in
      let kept : sleep_next r x ≡ sleep_next k x =
        ground (arith, next-place k idx prev cur remain x) in
      let delta : sleep_delta r x ≡ sub32 (sleep_delta k x) remain =
        ground (arith, delta-place k idx prev cur remain x apart) in
      (
        refl,
        bound,
        rw (delta-place k idx prev cur remain idx apart, eqb_refl idx) due,
        low,
        (
          ground (arith, next-place k idx prev cur remain idx),
          s.1,
          rw delta (omega arith),
          s.3,
          rw kept (
              Slots-frame (sleep_next k) (sleep_next r) (sleep_delta k) (sleep_delta r) top t
                (sleep_next k x) es s.4
                λ z m.
                  untouched prev cur remain z apart (has-ne prev z (names es) m (ground arith))
                    (has-ne idx z (names es) m (ground arith))
                    (inr (rw s.0 (has-ne x z (names es) m d.0)))),
        ),
      )

  place-Put :
      (prev base time cur remain : ℕ) (es : Entries)
      → top ≤ base + u32_mod
      → time < top
      → base + remain ≡ time
      → prev < max_tasks
      → (prev == idx) ≡ false
      → has prev (names es) ≡ false
      → has idx (names es) ≡ false
      → Distinct (names es)
      → Slots (sleep_next k) (sleep_delta k) top base cur es
      → Later time es
      → Put k idx time top base prev es (place_sleeper idx prev cur remain k)
  place-Put prev base time cur remain es small low due lt ne out out' d s later =
      let r : Sched = place_sleeper idx prev cur remain k in
      let apart : (cur == idx) ≡ false =
        head_ne (sleep_next k) (sleep_delta k) top base cur idx es s bound out' in
      let link : sleep_next r prev ≡ idx = ground (arith, next-place k idx prev cur remain prev) in
      record {
        slots =
            rw (link, insert_due_first idx time es later)
              (place-Slots prev base time cur remain es small low due ne out out' d s later);
        delta = ground (
          arith,
          delta-place k idx prev cur remain prev apart,
          head_apart (sleep_next k) (sleep_delta k) top base cur prev es s out,
        );
        same = λ z m.
            untouched prev cur remain z apart (ground arith) (ground arith)
              (head_apart (sleep_next k) (sleep_delta k) top base cur z es s (ground arith));
        head = ground (arith, head-place k idx prev cur remain);
      }

  Put-cons :
      (prev base time x t : ℕ) (es : Entries)
      → (prev == idx) ≡ false
      → has prev (x ∷ names es) ≡ false
      → sleep_next k prev ≡ x
      → ltb time t ≡ false
      → Slots (sleep_next k) (sleep_delta k) top base x ((x, t) ∷ es)
      → (r : Sched) → Put k idx time top t x es r
      → Put k idx time top base prev ((x, t) ∷ es) r
  unfolding insert_due
  Put-cons prev base time x t es ne out link past s r put =
      let before = put.same prev (ground arith) in
      record {
        slots = rw (past, before.0, link) (refl, s.1, rw put.delta s.2, s.3, put.slots);
        delta = before.1;
        same = λ z m. put.same z (ground arith);
        head = put.head;
      }

  pub sleep_insert_loop-Put :
      (fuel prev base time cur remain : ℕ) (es : Entries)
      → length (names es) < fuel
      → top ≤ base + u32_mod
      → time < top
      → base + remain ≡ time
      → prev < max_tasks
      → (prev == idx) ≡ false
      → has prev (names es) ≡ false
      → has idx (names es) ≡ false
      → Distinct (names es)
      → sleep_next k prev ≡ cur
      → Slots (sleep_next k) (sleep_delta k) top base cur es
      → Put k idx time top base prev es (sleep_insert_loop fuel idx prev cur remain k)
  unfolding sleep_insert_loop
  sleep_insert_loop-Put zero prev base time cur remain es enough small low due lt ne out out' d link
        s =
      absurd (omega arith)
  sleep_insert_loop-Put (suc f) prev base time cur remain [] enough small low due lt ne out out' d
        link s =
      let done : (cur == invalid_idx) ≡ true = ground arith in
      rw done (place-Put prev base time cur remain [] small low due lt ne out out' d s tt)
  sleep_insert_loop-Put (suc f) prev base time cur remain ((x, t) ∷ es) enough small low due lt ne
        out out' d link s =
      let other : (x == invalid_idx) ≡ false = ground arith in
      let s' : Slots (sleep_next k) (sleep_delta k) top base x ((x, t) ∷ es) =
        (refl, s.1, s.2, s.3, s.4) in
      elim (Bool-cases (ltb remain (sleep_delta k x))) [
        | inl soon ↦
            rw (s.0, other, soon)
              (place-Put prev base time x remain ((x, t) ∷ es) small low due lt ne out out' d s'
                (ground arith))
        | inr past ↦
            let step : sub32 remain (sleep_delta k x) ≡ time - t = ground arith in
            rw (s.0, other, past)
              (Put-cons prev base time x t es ne out (link ∙ s.0) (ground arith) s'
                (sleep_insert_loop f idx x (sleep_next k x) (sub32 remain (sleep_delta k x)) k)
                (rw step (
                  sleep_insert_loop-Put f x t time (sleep_next k x) (time - t) es (omega arith)
                    (omega arith) low (ground arith) s.1 (ground arith) d.0 (ground arith) d.1 refl
                    s.4)))
      ]
