-- ===== src/Sleep/Unlink.antt =====
-- The walk of sleep_remove along the queue, and what it unlinks.
use halaos_stm32f103_hardwar.Prelude.{
  ℕ, zero, suc, ◌+◌, ◌≤◌, ◌<◌, ◌≡◌, refl, ◌∙◌, inl, inr, true, false, [], ◌∷◌, arith, ◌==◌, has,
  Distinct, length, Bool-cases, if◌then◌else◌, add32, eqb→eq, has-ne, u32_mod,
}
use halaos_stm32f103_hardwar.Chain.{invalid_idx, max_tasks}
use halaos_stm32f103_hardwar.Kernel.{Sched}
use halaos_stm32f103_hardwar.Sleep.{sleep_remove_loop, unlink_sleeper}
use halaos_stm32f103_hardwar.Sleep.Slots.{
  Entries, names, drop_task, head_apart, drop_task_absent, Slots, Slots-frame, sleep_next,
  sleep_delta,
}

-- The part of the queue behind `prev`, which is due at `base`, once `idx` is gone from it.
pub record Cut (k : Sched) (idx top base prev : ℕ) (es : Entries) (r : Sched) : Type 0 where
  pub slots : Slots (sleep_next r) (sleep_delta r) top base (sleep_next r prev) (drop_task idx es)
  pub delta : sleep_delta r prev ≡ sleep_delta k prev
  same :
      (x : ℕ)
      → has x (prev ∷ names es) ≡ false
      → (sleep_next r x ≡ sleep_next k x) × (sleep_delta r x ≡ sleep_delta k x)
  pub head : r.sleep_head ≡ k.sleep_head

module _ (k : Sched) (prev x : ℕ) where
  next-unlink :
      (z : ℕ)
      → sleep_next (unlink_sleeper prev x k) z ≡ (
          if z == x
          then invalid_idx
          else if prev == invalid_idx
          then sleep_next k z
          else if z == prev
          then sleep_next k x
          else sleep_next k z)
  unfolding unlink_sleeper
  next-unlink z = ground arith

  delta-unlink :
      (z : ℕ)
      → sleep_delta (unlink_sleeper prev x k) z ≡ (
          if z == x
          then 0
          else if sleep_next k x == invalid_idx
          then sleep_delta k z
          else if z == sleep_next k x
          then add32 (sleep_delta k z) (sleep_delta k x)
          else sleep_delta k z)
  unfolding unlink_sleeper
  delta-unlink z = ground arith

  pub head-unlink :
      (unlink_sleeper prev x k).sleep_head
      ≡ (if prev == invalid_idx then sleep_next k x else k.sleep_head)
  unfolding unlink_sleeper
  head-unlink = ground arith

module _ (k : Sched) (idx top : ℕ) where
  pub unlink-Slots :
      (prev base x t : ℕ) (es : Entries)
      → top ≤ base + u32_mod
      → has prev (names es) ≡ false
      → Distinct (x ∷ names es)
      → Slots (sleep_next k) (sleep_delta k) top base x ((x, t) ∷ es)
      → let r = unlink_sleeper prev x k in
        Slots (sleep_next r) (sleep_delta r) top base (sleep_next k x) es
  unlink-Slots prev base x t [] small out d s = s.4
  unlink-Slots prev base x t ((y, u) ∷ es) small out d s =
      let (e, lt, due, low, (link, lt', due', low', rest)) = s in
      let r : Sched = unlink_sleeper prev x k in
      let kept : sleep_next r y ≡ sleep_next k y = ground (arith, next-unlink k prev x y) in
      (
        link,
        lt',
        ground (arith, delta-unlink k prev x y),
        low',
        rw kept (
            Slots-frame (sleep_next k) (sleep_next r) (sleep_delta k) (sleep_delta r) top u
              (sleep_next k y) es rest
              λ z m.
                let apart : (z == x) ≡ false = has-ne x z (names es) m (ground arith) in
                let off : (z == y) ≡ false = has-ne y z (names es) m d.1.0 in
                let before : (z == prev) ≡ false = has-ne prev z (names es) m (ground arith) in
                (
                  rw (next-unlink k prev x z, apart, before) (ground arith),
                  rw (delta-unlink k prev x z, apart, link, off) (ground arith),
                )),
      )

  unlink-Cut :
      (prev base x t : ℕ) (es : Entries)
      → top ≤ base + u32_mod
      → prev < max_tasks
      → has prev (x ∷ names es) ≡ false
      → Distinct (x ∷ names es)
      → Slots (sleep_next k) (sleep_delta k) top base x ((x, t) ∷ es)
      → (x == idx) ≡ true
      → Cut k idx top base prev ((x, t) ∷ es) (unlink_sleeper prev x k)
  unfolding drop_task
  unlink-Cut prev base x t es small lt out d s hit =
      let gone : drop_task idx es ≡ es = drop_task_absent idx es (rw (← eqb→eq x idx hit) d.0) in
      let link : sleep_next (unlink_sleeper prev x k) prev ≡ sleep_next k x =
        ground (arith, next-unlink k prev x prev) in
      record {
        slots = rw (hit, gone, link) (unlink-Slots prev base x t es small (ground arith) d s);
        delta = ground (
          arith,
          delta-unlink k prev x prev,
          head_apart (sleep_next k) (sleep_delta k) top t (sleep_next k x) prev es s.4
              (ground arith),
        );
        same = λ z m. (
          ground (arith, next-unlink k prev x z),
          ground (
            arith,
            delta-unlink k prev x z,
            head_apart (sleep_next k) (sleep_delta k) top t (sleep_next k x) z es s.4
                (ground arith),
          ),
        );
        head = ground (arith, head-unlink k prev x);
      }

  Cut-cons :
      (prev base x t : ℕ) (es : Entries)
      → has prev (x ∷ names es) ≡ false
      → sleep_next k prev ≡ x
      → (x == idx) ≡ false
      → Slots (sleep_next k) (sleep_delta k) top base x ((x, t) ∷ es)
      → (r : Sched) → Cut k idx top t x es r
      → Cut k idx top base prev ((x, t) ∷ es) r
  unfolding drop_task
  Cut-cons prev base x t es out link miss s r cut =
      let before = cut.same prev out in
      record {
        slots = rw (miss, before.0, link) (refl, s.1, rw cut.delta s.2, s.3, cut.slots);
        delta = before.1;
        same = λ z m. cut.same z (ground arith);
        head = cut.head;
      }

  pub sleep_remove_loop-Cut :
      (fuel prev base cur : ℕ) (es : Entries)
      → length (names es) < fuel
      → top ≤ base + u32_mod
      → prev < max_tasks
      → has prev (names es) ≡ false
      → Distinct (names es)
      → sleep_next k prev ≡ cur
      → Slots (sleep_next k) (sleep_delta k) top base cur es
      → Cut k idx top base prev es (sleep_remove_loop fuel idx prev cur k)
  unfolding sleep_remove_loop drop_task
  sleep_remove_loop-Cut zero prev base cur es enough small lt out d link s = absurd (omega arith)
  sleep_remove_loop-Cut (suc f) prev base cur [] enough small lt out d link s =
      rw s (record { slots = link ∙ s; delta = refl; same = λ z m. (refl, refl); head = refl })
  sleep_remove_loop-Cut (suc f) prev base cur ((x, t) ∷ es) enough small lt out d link s =
      let other : (x == invalid_idx) ≡ false = ground arith in
      let s' : Slots (sleep_next k) (sleep_delta k) top base x ((x, t) ∷ es) =
        (refl, s.1, s.2, s.3, s.4) in
      elim (Bool-cases (x == idx)) [
        | inl hit ↦ rw (s.0, other, hit) (unlink-Cut prev base x t es small lt out d s' hit)
        | inr miss ↦
            rw (s.0, other, miss)
              (Cut-cons prev base x t es out (link ∙ s.0) miss s'
                (sleep_remove_loop f idx x (sleep_next k x) k)
                (sleep_remove_loop-Cut f x t (sleep_next k x) es (omega arith) (omega arith) s.1 d.0
                  d.1 refl s.4))
      ]
