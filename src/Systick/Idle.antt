-- ===== src/Systick/Idle.antt =====
-- The tickless idle mode never sleeps past the next event by more than the shortest step allows.
use halaos_stm32f103_hardwar.Prelude.{
  ℕ, ◌+◌, ◌*◌, ◌≤◌, ◌<◌, ◌^◌, ◌≡◌, ap, true, false, not, ◌||◌, ◌∷◌, arith, ◌==◌, ltb, max,
}
use halaos_stm32f103_hardwar.Kernel.{Sched}
use halaos_stm32f103_hardwar.Sleep.Slots.{Entries, Sleepers, sleep_delta}
use halaos_stm32f103_hardwar.Systick.{
  tick_cycles, longest_idle, next_event_ticks, enter_idle_tickless,
}

next_event_ticks-bounds :
    (now x t : ℕ) (k : Sched) (es : Entries)
    → Sleepers k now ((x, t) ∷ es)
    → let n = next_event_ticks k in (2 ≤ n) × (n ≤ 5) × (now + n ≤ max (now + 2) t)
unfolding next_event_ticks
next_event_ticks-bounds now x t k es v =
    let s = v.slots in
    let long : 5 ≤ longest_idle = omega arith in
    let at_head : sleep_delta k k.sleep_head ≡ sleep_delta k x = ap (λ y. sleep_delta k y) s.0 in
    let due = s.2 in rw at_head (ground arith, ground arith, ground arith)

-- Where `x` is the first of the sleepers, due at `t`, no load runs and the tick step is 1,
-- enter_idle_tickless sets a tick step of 2 to 5 ticks that ends no later than `t`, or two ticks
-- from now if that is later, and a reload value for exactly this step, which fits the timer's 24
-- bits.
pub enter_idle_tickless-bounds :
    (now x t : ℕ) (k : Sched) (es : Entries)
    → Sleepers k now ((x, t) ∷ es)
    → k.load_mode ≡ 0
    → k.tick_step ≡ 1
    → let r = enter_idle_tickless k in
      (2 ≤ r.tick_step)
      × (r.tick_step ≤ 5)
      × (now + r.tick_step ≤ max (now + 2) t)
      × (r.systick_reload + 1 ≡ r.tick_step * tick_cycles)
      × (r.systick_reload < 2 ^ 24)
unfolding enter_idle_tickless
enter_idle_tickless-bounds now x t k es v off whole =
    let b = next_event_ticks-bounds now x t k es v in
    let go : ltb 1 (next_event_ticks k) ≡ true = ground arith in
    let low = b.0 in
    let high = b.1 in
    let idle : (not (k.load_mode == 0) || not (k.tick_step == 1)) ≡ false = ground arith in
    rw (idle, go) (b.0, b.1, b.2, omega arith, omega arith)
