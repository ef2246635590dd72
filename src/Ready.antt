-- ===== src/Ready.antt =====
-- The ready queues of real-time tasks: rt_queue_init, rt_enqueue, rt_remove, rt_rotate and
-- highest_rt of src/kernel/halaos_kernel.c.
pub mod Enqueue
pub mod Frame
pub mod Highest
pub mod Init
pub mod Invariant
pub mod Unlink
pub mod Remove
pub mod Rotate
mod Tests
use halaos_stm32f103_hardwar.Prelude.{
  ℕ, zero, suc, ◌+◌, ◌-◌, true, false, ◌==◌, ◌||◌, ltb, leb, if◌then◌else◌, update, inc32,
}
use halaos_stm32f103_hardwar.Chain.{invalid_idx, max_tasks}
use halaos_stm32f103_hardwar.Kernel.{Tcb, Sched}

abbrev pub rt_levels : ℕ
rt_levels = 16

-- `u8 p = t->effective_prio; if (p >= RT_LEVELS) p = RT_LEVELS - 1;`
abbrev pub level : Tcb → ℕ
level t = if leb rt_levels t.effective_prio then rt_levels - 1 else t.effective_prio

-- `g_tasks[i].ready_next = v`
abbrev pub set_ready_next : ℕ → ℕ → Sched → Sched
set_ready_next i v k = record k { tasks = update k.tasks i (record (k.tasks i) { ready_next = v }) }

pub rt_queue_init : Sched → Sched
rt_queue_init k = record k {
  rt_head = λ p. if ltb p rt_levels then invalid_idx else k.rt_head p;
  rt_tail = λ p. if ltb p rt_levels then invalid_idx else k.rt_tail p;
  rt_bitmap = λ p. false;
}

-- Both branches of the test on the tail; the bit is set behind them.
link_last : ℕ → ℕ → Sched → Sched
link_last p idx k =
    if k.rt_tail p == invalid_idx
    then record k { rt_head = update k.rt_head p idx; rt_tail = update k.rt_tail p idx }
    else record (set_ready_next (k.rt_tail p) idx k) { rt_tail = update k.rt_tail p idx }

-- rt_enqueue behind the choice of the level.
pub enqueue_at : ℕ → ℕ → Sched → Sched
unfolding link_last
enqueue_at p idx k =
    let k' = link_last p idx (set_ready_next idx invalid_idx k) in
    record k' { rt_bitmap = update k'.rt_bitmap p true }

unfoldable pub rt_enqueue : ℕ → Sched → Sched
rt_enqueue idx k = enqueue_at (level (k.tasks idx)) idx k

-- The body of the loop of rt_remove at `cur == idx`.
pub unlink : ℕ → ℕ → ℕ → Sched → Sched
unlink p prev cur k =
    let next = (k.tasks cur).ready_next in
    let k₁ =
      if prev == invalid_idx
      then record k { rt_head = update k.rt_head p next }
      else set_ready_next prev next k in
    let k₂ = if k₁.rt_tail p == cur then record k₁ { rt_tail = update k₁.rt_tail p prev } else k₁ in
    let k₃ = set_ready_next cur invalid_idx k₂ in
    if k₃.rt_head p == invalid_idx
    then record k₃ { rt_bitmap = update k₃.rt_bitmap p false }
    else k₃

-- The walk over the queue, on fuel: it returns `k` when the fuel is used up.
pub remove_loop : ℕ → ℕ → ℕ → ℕ → ℕ → Sched → Sched
remove_loop zero p idx prev cur k = k
remove_loop (suc fuel) p idx prev cur k =
    let rest = remove_loop fuel p idx cur (k.tasks cur).ready_next k in
    if cur == invalid_idx then k else if cur == idx then unlink p prev cur k else rest

-- A queue of distinct tasks has at most MAX_TASKS of them, and one more round ends the loop.
unfoldable pub rt_remove : ℕ → Sched → Sched
rt_remove idx k =
    let p = level (k.tasks idx) in remove_loop (max_tasks + 1) p idx invalid_idx (k.rt_head p) k

-- rt_rotate behind its two early returns.
pub move_head : ℕ → Sched → Sched
move_head p k =
    let h = k.rt_head p in
    let k₁ = record k { rt_head = update k.rt_head p (k.tasks h).ready_next } in
    let k₂ = set_ready_next h invalid_idx k₁ in
    let k₃ = set_ready_next (k₂.rt_tail p) h k₂ in
    record k₃ { rt_tail = update k₃.rt_tail p h; rr_rotations = inc32 k₃.rr_rotations }

unfoldable pub rt_rotate : ℕ → Sched → Sched
rt_rotate p k =
    let h = k.rt_head p in
    if leb rt_levels p
    then k
    else if (h == invalid_idx) || ((k.tasks h).ready_next == invalid_idx)
    then k
    else move_head p k

-- The scan of the bitmap, on the levels left.
pub scan_levels : ℕ → ℕ → Sched → ℕ
scan_levels zero p k = invalid_idx
scan_levels (suc left) p k =
    let rest = scan_levels left (p + 1) k in if k.rt_bitmap p then k.rt_head p else rest

unfoldable pub highest_rt : Sched → ℕ
highest_rt k = scan_levels rt_levels 0 k
