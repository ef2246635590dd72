-- ===== src/Tick/Budget.antt =====
-- The budget of the real-time tasks: 80 ticks in a window of 100.
use halaos_stm32f103_hardwar.Prelude.{
  ℕ, ◌+◌, ◌^◌, ◌≤◌, ◌<◌, ◌≡◌, refl, ◌&&◌, not, arith, leb, inl, inr, Bool-cases, add32, sub32,
  u32_mod,
}
use halaos_stm32f103_hardwar.Kernel.{Sched, is_rt_policy}
use halaos_stm32f103_hardwar.Dispatch.{pend_resched}
use halaos_stm32f103_hardwar.Tick.{
  rt_window_ticks, rt_budget_ticks, rt_account, start_window, charge_rt,
}

abbrev pub elapsed : Sched → ℕ
elapsed k = sub32 k.ticks k.rt_window_start

-- After a tick: the window is not over, the time that real-time tasks have used is no longer than
-- the window has lasted, and one step of at most `limit`, and they are throttled if and only if
-- they have used up their budget.
pub record IsBudget (limit : ℕ) (k : Sched) : Type 0 where
  pub open_window : elapsed k < rt_window_ticks
  pub used : k.rt_used ≤ elapsed k + limit
  pub flag : k.rt_throttled ≡ leb rt_budget_ticks k.rt_used
  pub ticks : k.ticks < u32_mod
  pub start : k.rt_window_start < u32_mod

-- The clock moves on.
abbrev pub clock : ℕ → Sched → Sched
clock step k = record k { ticks = add32 k.ticks step }

module _ (step limit : ℕ) (le : step ≤ limit) (small : limit < 2 ^ 31) where
  -- Between the two tests of rt_account.
  record IsOpen (k : Sched) : Type 0 where
    open_window : elapsed k < rt_window_ticks
    used : k.rt_used + step ≤ elapsed k + limit
    flag : k.rt_throttled ≡ leb rt_budget_ticks k.rt_used
    ticks : k.ticks < u32_mod
    start : k.rt_window_start < u32_mod

  start_window-IsOpen : (k : Sched) → IsBudget limit k → IsOpen (start_window (clock step k))
  unfolding start_window
  start_window-IsOpen k b =
      let k' : Sched = clock step k in
      let w = b.open_window in
      let u = b.used in
      let t = b.ticks in
      let s = b.start in
      let moved : elapsed k' ≡ elapsed k + step = omega arith in
      elim (Bool-cases (leb rt_window_ticks (elapsed k'))) [
        | inl over ↦ rw over (record {
          open_window = omega arith;
          used = omega arith;
          flag = refl;
          ticks = omega arith;
          start = omega arith;
        })
        | inr current ↦ rw current (record {
          open_window = ground arith;
          used = omega arith;
          flag = b.flag;
          ticks = omega arith;
          start = s;
        })
      ]

  IsOpen-IsBudget : (k : Sched) → IsOpen k → IsBudget limit k
  IsOpen-IsBudget k b = record {
    open_window = b.open_window;
    used = omega (arith, b.used);
    flag = b.flag;
    ticks = b.ticks;
    start = b.start;
  }

  charge_rt-IsBudget : (k : Sched) → IsOpen k → IsBudget limit (charge_rt step k)
  unfolding charge_rt pend_resched
  charge_rt-IsBudget k b =
      let w = b.open_window in
      let u = b.used in
      let f = b.flag in
      let whole : add32 k.rt_used step ≡ k.rt_used + step = omega arith in
      elim (Bool-cases (leb rt_budget_ticks (add32 k.rt_used step) && not k.rt_throttled)) [
        | inl spent ↦ rw spent (record {
          open_window = w;
          used = omega arith;
          flag = ground arith;
          ticks = b.ticks;
          start = b.start;
        })
        | inr left ↦ rw left (record {
          open_window = w;
          used = omega arith;
          flag = ground arith;
          ticks = b.ticks;
          start = b.start;
        })
      ]

  -- For a step of at most `limit` ticks, and `limit` below 2 ^ 31: if before the tick the window
  -- is not over, real-time tasks have used at most its length and `limit`, and are throttled if
  -- and only if that is 80 ticks or more, then all this holds again once the clock has moved on
  -- by the step and rt_account has run.
  pub rt_account-IsBudget :
      (k : Sched) → IsBudget limit k → IsBudget limit (rt_account step (clock step k))
  unfolding rt_account
  rt_account-IsBudget k b =
      let k' : Sched = start_window (clock step k) in
      let o = start_window-IsOpen k b in
      elim (Bool-cases (is_rt_policy (k'.tasks k'.current).policy)) [
        | inl rt ↦ rw rt (charge_rt-IsBudget k' o)
        | inr other ↦ rw other (IsOpen-IsBudget k' o)
      ]
