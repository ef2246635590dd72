-- ===== src/Ready/Invariant.antt =====
-- What the real-time ready queues of src/kernel/halaos_kernel.c hold: one list of tasks a level.
use halaos_stm32f103_hardwar.Prelude.{
  ℕ, ◌<◌, ◌≡◌, Bool, true, false, List, [], ◌∷◌, arith, has, Distinct, last_or,
}
use halaos_stm32f103_hardwar.Chain.{invalid_idx, Chain}
use halaos_stm32f103_hardwar.Kernel.{Tcb, Sched}
use halaos_stm32f103_hardwar.Ready.{rt_levels, level, enqueue_at}

abbrev pub ready_next : Sched → ℕ → ℕ
ready_next k x = (k.tasks x).ready_next

abbrev pub nonempty : List ℕ → Bool
nonempty [] = false
nonempty (x ∷ q) = true

-- The queue of one level: its links, head, tail and bit, with no task twice, and each task of
-- that level.
pub record Holds (k : Sched) (p : ℕ) (q : List ℕ) : Type 0 where
  pub chain : Chain (ready_next k) (k.rt_head p) q
  pub last : k.rt_tail p ≡ last_or invalid_idx q
  pub bit : k.rt_bitmap p ≡ nonempty q
  pub distinct : Distinct q
  pub at_level : (x : ℕ) → has x q ≡ true → level (k.tasks x) ≡ p

abbrev pub IsReadyQueues : Sched → (ℕ → List ℕ) → Type 0
IsReadyQueues k qs = (p : ℕ) → p < rt_levels → Holds k p (qs p)

pub level-lt : (t : Tcb) → level t < rt_levels
level-lt t = ground arith

-- `r` differs from `k` in no field of a task but `ready_next`.
abbrev pub SameButLinks : Sched → Sched → Type 0
SameButLinks k r = (x : ℕ) → r.tasks x ≡ record (k.tasks x) { ready_next = (r.tasks x).ready_next }

pub level-SameButLinks :
    (k r : Sched) → SameButLinks k r → (x : ℕ) → level (r.tasks x) ≡ level (k.tasks x)
level-SameButLinks k r same x = rw (same x)

pub enqueue_at-SameButLinks : (p idx : ℕ) (k : Sched) → SameButLinks k (enqueue_at p idx k)
unfolding enqueue_at
enqueue_at-SameButLinks p idx k x = ground arith
