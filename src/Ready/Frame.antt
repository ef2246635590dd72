-- ===== src/Ready/Frame.antt =====
-- What rt_enqueue and rt_remove leave alone.
use halaos_stm32f103_hardwar.Prelude.{
  ℕ, zero, suc, ◌+◌, ◌≡◌, refl, ap, ◌∙◌, Bool, List, arith, ◌==◌, ◌||◌, leb, inl, inr, Bool-cases,
}
use halaos_stm32f103_hardwar.Kernel.{Sched}
use halaos_stm32f103_hardwar.Ready.{
  rt_levels, rt_rotate, move_head, level, rt_enqueue, enqueue_at, rt_remove, remove_loop, unlink,
}
use halaos_stm32f103_hardwar.Ready.Invariant.{
  ready_next, IsReadyQueues, SameButLinks, enqueue_at-SameButLinks,
}
use halaos_stm32f103_hardwar.Ready.Unlink.{remove_loop-SameButLinks}
use halaos_stm32f103_hardwar.Chain.{invalid_idx, max_tasks, Chain-frame}

pub rt_enqueue-SameButLinks : (idx : ℕ) (k : Sched) → SameButLinks k (rt_enqueue idx k)
unfolding rt_enqueue
rt_enqueue-SameButLinks idx k = enqueue_at-SameButLinks (level (k.tasks idx)) idx k

enqueue_at-same :
    (p idx : ℕ) (k : Sched)
    → let r = enqueue_at p idx k in
      (r.sleep_head ≡ k.sleep_head) × (r.ticks ≡ k.ticks) × (r.current ≡ k.current)
unfolding enqueue_at
enqueue_at-same p idx k = ground arith

pub rt_enqueue-same :
    (idx : ℕ) (k : Sched)
    → let r = rt_enqueue idx k in
      (r.sleep_head ≡ k.sleep_head) × (r.ticks ≡ k.ticks) × (r.current ≡ k.current)
unfolding rt_enqueue
rt_enqueue-same idx k = enqueue_at-same (level (k.tasks idx)) idx k

pub rt_remove-SameButLinks : (idx : ℕ) (k : Sched) → SameButLinks k (rt_remove idx k)
unfolding rt_remove
rt_remove-SameButLinks idx k =
    let p : ℕ = level (k.tasks idx) in
    remove_loop-SameButLinks p idx k (max_tasks + 1) invalid_idx (k.rt_head p)

unlink-same : (p prev cur : ℕ) (k : Sched) → (unlink p prev cur k).sleep_head ≡ k.sleep_head
unfolding unlink
unlink-same p prev cur k = ground arith

remove_loop-same :
    (fuel p idx prev cur : ℕ) (k : Sched)
    → (remove_loop fuel p idx prev cur k).sleep_head ≡ k.sleep_head
unfolding remove_loop
remove_loop-same zero p idx prev cur k = refl
remove_loop-same (suc f) p idx prev cur k =
    ground (arith, remove_loop-same f p idx cur (ready_next k cur) k, unlink-same p prev cur k)

pub rt_remove-same : (idx : ℕ) (k : Sched) → (rt_remove idx k).sleep_head ≡ k.sleep_head
unfolding rt_remove
rt_remove-same idx k =
    let p : ℕ = level (k.tasks idx) in
    remove_loop-same (max_tasks + 1) p idx invalid_idx (k.rt_head p) k

-- The queues depend on the links, the priorities, the heads, the tails and the bitmap alone.
pub IsReadyQueues-frame :
    (k r : Sched) (qs : ℕ → List ℕ)
    → ((x : ℕ) → (ready_next r x ≡ ready_next k x) × (level (r.tasks x) ≡ level (k.tasks x)))
    → r.rt_head ≡ k.rt_head
    → r.rt_tail ≡ k.rt_tail
    → r.rt_bitmap ≡ k.rt_bitmap
    → IsReadyQueues k qs
    → IsReadyQueues r qs
IsReadyQueues-frame k r qs same heads tails bits inv p lt =
    let h = inv p lt in
    record {
      chain = rw (ap (λ (f : ℕ → ℕ). f p) heads) (
          Chain-frame (ready_next k) (ready_next r) (k.rt_head p) (qs p) h.chain λ x m. (same x).0);
      last = ap (λ (f : ℕ → ℕ). f p) tails ∙ h.last;
      bit = ap (λ (f : ℕ → Bool). f p) bits ∙ h.bit;
      distinct = h.distinct;
      at_level = λ x m. (same x).1 ∙ h.at_level x m;
    }

move_head-SameButLinks : (p : ℕ) (k : Sched) → SameButLinks k (move_head p k)
unfolding move_head
move_head-SameButLinks p k x = ground arith

pub rt_rotate-SameButLinks : (p : ℕ) (k : Sched) → SameButLinks k (rt_rotate p k)
unfolding rt_rotate
rt_rotate-SameButLinks p k x = elim (Bool-cases (leb rt_levels p)) [
  | inl above ↦ rw above refl
  | inr below ↦
      elim (Bool-cases
        ((k.rt_head p == invalid_idx) || ((k.tasks (k.rt_head p)).ready_next == invalid_idx))) [
          | inl short ↦ rw (below, short) refl
          | inr long ↦ rw (below, long) (move_head-SameButLinks p k x)
        ]
]
