-- ===== src/Sleep/Wake.antt =====
-- task_make_ready of src/kernel/halaos_kernel.c on a task that still stands in the sleep queue.
use halaos_stm32f103_hardwar.Prelude.{
  ℕ, ◌+◌, u32_mod, ◌≡◌, ap, ◌∙◌, false, [], ◌∷◌, ◌++◌, arith, ◌==◌, has, Distinct,
}
use halaos_stm32f103_hardwar.Chain.{invalid_idx, Chain}
use halaos_stm32f103_hardwar.Kernel.{TaskState, Tcb, Sched, is_ready}
use halaos_stm32f103_hardwar.Sleep.{task_make_ready, mark_ready}
use halaos_stm32f103_hardwar.Sleep.Woke.{enlist-SameButLinks, task_make_ready-Woke}
use halaos_stm32f103_hardwar.Sleep.Slots.{Entries, names, Slots, Sleepers, sleep_next, sleep_delta}

made_ready-next :
    (x : ℕ) (k : Sched)
    → is_ready (k.tasks x).state ≡ false
    → sleep_next (task_make_ready x k) x ≡ invalid_idx
unfolding task_make_ready mark_ready
made_ready-next x k asleep =
    let e = enlist-SameButLinks x (mark_ready x k) x in
    let m : sleep_next (mark_ready x k) x ≡ invalid_idx = ground arith in
    rw asleep (ap (λ (t : Tcb). t.sleep_next) e ∙ m)

-- Cutting the link of `x` leaves the chain up to it.
Chain-cut :
    (f d g : ℕ → ℕ) (top base h x t : ℕ) (a b : Entries)
    → Slots f d top base h (a ++ (x, t) ∷ b)
    → Distinct (names (a ++ (x, t) ∷ b))
    → g x ≡ invalid_idx
    → ((z : ℕ) → (z == x) ≡ false → g z ≡ f z)
    → Chain g h (names a ++ x ∷ [])
Chain-cut f d g top base h x t [] b s n cut same = (s.0, s.1, cut)
Chain-cut f d g top base h x t ((y, u) ∷ a) b s n cut same =
    let apart : (y == x) ≡ false = absent-middle y x t a b n.0 in
    (s.0, s.1, rw (same y apart) (Chain-cut f d g top u (f y) x t a b s.4 n.1 cut same))
  where
    absent-middle :
        (y x t : ℕ) (a b : Entries) → has y (names (a ++ (x, t) ∷ b)) ≡ false → (y == x) ≡ false
    absent-middle y x t [] b out = ground arith
    absent-middle y x t ((z, u) ∷ a) b out = absent-middle y x t a b (ground arith)

-- Where a task that is not READY stands in the sleep queue, task_make_ready on it makes it READY
-- and cuts the queue behind it: the links lead from the head through the tasks before it, and to
-- it, and end there.
pub task_make_ready-cuts :
    (now x t : ℕ) (k : Sched) (a b : Entries)
    → Sleepers k now (a ++ (x, t) ∷ b)
    → is_ready (k.tasks x).state ≡ false
    → let r = task_make_ready x k in
      Chain (sleep_next r) r.sleep_head (names a ++ x ∷ []) × ((r.tasks x).state ≡ TaskState.ready)
task_make_ready-cuts now x t k a b v asleep =
    let r : Sched = task_make_ready x k in
    let w = task_make_ready-Woke x k in
    (
      rw w.head (
          Chain-cut (sleep_next k) (sleep_delta k) (sleep_next r) (now + u32_mod) now k.sleep_head x
            t a b v.slots v.distinct (made_ready-next x k asleep) λ z n. (w.others z n).0),
      w.ready,
    )
