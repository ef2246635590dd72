-- ===== src/Sleep/Tie.antt =====
-- Two sleepers that are due at the same tick: sleep_advance stops as soon as the time is used up.
use halaos_stm32f103_hardwar.Prelude.{
  ℕ, ◌+◌, ◌-◌, ◌<◌, ◌≡◌, sym, subst, false, ◌∷◌, arith, ◌==◌, ltb, Distinct, sub32, u32_mod,
}
use halaos_stm32f103_hardwar.Chain.{invalid_idx}
use halaos_stm32f103_hardwar.Kernel.{Sched}
use halaos_stm32f103_hardwar.Sleep.{sleep_advance, sleep_advance_loop, wake_head}
use halaos_stm32f103_hardwar.Sleep.Advance.{wake_head-Slots}
use halaos_stm32f103_hardwar.Sleep.Woke.{wake_head_lem}
use halaos_stm32f103_hardwar.Sleep.Slots.{
  Entries, names, Slots, Slots-later, Sleepers, sleep_next, sleep_delta,
}

advance-exact :
    (now t : ℕ) (k : Sched) (es : Entries)
    → now < t
    → Slots (sleep_next k) (sleep_delta k) (now + u32_mod) now k.sleep_head ((k.sleep_head, t) ∷ es)
    → sleep_advance (t - now) k ≡ wake_head k.sleep_head k
unfolding sleep_advance sleep_advance_loop
advance-exact now t k es lt s =
    let running : (t - now == 0) ≡ false = ground arith in
    let other : (k.sleep_head == invalid_idx) ≡ false = ground arith in
    let due : ltb (t - now) (sleep_delta k k.sleep_head) ≡ false = ground arith in
    let left : sub32 (t - now) (sleep_delta k k.sleep_head) ≡ 0 = omega arith in
    rw (running, other, due, left)

tie_at_head :
    (now t y : ℕ) (k : Sched) (es : Entries)
    → now < t
    → Distinct (k.sleep_head ∷ y ∷ names es)
    → Slots
        (sleep_next k)
        (sleep_delta k)
        (now + u32_mod)
        now
        k.sleep_head
        ((k.sleep_head, t) ∷ (y, t) ∷ es)
    → let r = sleep_advance (t - now) k in
      Sleepers r t ((y, t) ∷ es) × ((r.tasks y).state ≡ (k.tasks y).state)
tie_at_head now t y k es lt d s =
    let h : ℕ = k.sleep_head in
    let top : ℕ = now + u32_mod in
    let r : Sched = wake_head h k in
    rw (advance-exact now t k ((y, t) ∷ es) lt s) (
      record {
        slots =
            Slots-later (sleep_next r) (sleep_delta r) top (t + u32_mod) t r.sleep_head
              ((y, t) ∷ es) (omega arith) (wake_head-Slots top k t h ((y, t) ∷ es) d.0 s.4);
        distinct = d.1;
      },
      ((wake_head_lem h k).2 y (ground arith)).2,
    )

-- Where the two first sleepers are both due at `t`, later than `now`, the second is still asleep
-- after sleep_advance has moved the time from `now` to `t`: it is at the head of the queue, with
-- its state unchanged.
pub sleep_advance-tie :
    (now t x y : ℕ) (k : Sched) (es : Entries)
    → Sleepers k now ((x, t) ∷ (y, t) ∷ es)
    → now < t
    → let r = sleep_advance (t - now) k in
      Sleepers r t ((y, t) ∷ es) × ((r.tasks y).state ≡ (k.tasks y).state)
sleep_advance-tie now t x y k es v lt =
    let same : x ≡ k.sleep_head = sym v.slots.0 in
    tie_at_head now t y k es lt (subst (λ z. Distinct (z ∷ y ∷ names es)) same v.distinct) (
      subst
        (λ z.
          Slots (sleep_next k) (sleep_delta k) (now + u32_mod) now k.sleep_head
            ((z, t) ∷ (y, t) ∷ es))
        same v.slots)
