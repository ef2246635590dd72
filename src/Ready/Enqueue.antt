-- ===== src/Ready/Enqueue.antt =====
-- rt_enqueue puts the task at the end of the queue of its level.
use halaos_stm32f103_hardwar.Prelude.{
  ℕ, ◌<◌, ◌≡◌, refl, ◌∙◌, ◌⊎◌, inl, inr, true, false, List, [], ◌∷◌, ◌++◌, arith, ◌==◌, has,
  last_or, update, Bool-cases, eqb→eq, has-append, last_or-append_one, has-ne, Distinct-append_one,
}
use halaos_stm32f103_hardwar.Chain.{
  invalid_idx, max_tasks, Chain-frame, Chain-append_one, has_last, last-ne-invalid,
}
use halaos_stm32f103_hardwar.Kernel.{Sched}
use halaos_stm32f103_hardwar.Ready.{level, rt_enqueue, enqueue_at}
use halaos_stm32f103_hardwar.Ready.Invariant.{
  ready_next, Holds, IsReadyQueues, level-SameButLinks, enqueue_at-SameButLinks, level-lt,
}

has-append_one :
    (a x : ℕ) (q : List ℕ) → has x (q ++ (a ∷ [])) ≡ true → (x == a) ≡ false → has x q ≡ true
has-append_one a x q h n = ground (arith, has-append x q (a ∷ []))

pub tail_at_level :
    (k : Sched) (p : ℕ) (q : List ℕ)
    → Holds k p q
    → (k.rt_tail p ≡ invalid_idx) ⊎ (level (k.tasks (k.rt_tail p)) ≡ p)
tail_at_level k p [] h = inl h.last
tail_at_level k p (x ∷ q) h = inr (rw h.last (h.at_level (last_or x q) (has_last x q)))

module _ (p idx : ℕ) (k : Sched) (bound : idx < max_tasks) (own : level (k.tasks idx) ≡ p) where
  at_level-append_one :
      (q : List ℕ)
      → ((x : ℕ) → has x q ≡ true → level (k.tasks x) ≡ p)
      → (x : ℕ) → has x (q ++ (idx ∷ [])) ≡ true
      → level ((enqueue_at p idx k).tasks x) ≡ p
  at_level-append_one q at x m =
      level-SameButLinks k (enqueue_at p idx k) (enqueue_at-SameButLinks p idx k) x
      ∙ elim (Bool-cases (x == idx)) [
        | inl same ↦ rw (eqb→eq x idx same) own
        | inr other ↦ at x (has-append_one idx x q m other)
      ]

  enqueue_at-empty : Holds k p [] → Holds (enqueue_at p idx k) p (idx ∷ [])
  unfolding enqueue_at
  enqueue_at-empty h = record {
    chain = (ground arith, bound, ground arith);
    last = ground arith;
    bit = ground arith;
    distinct = (refl, tt);
    at_level = at_level-append_one [] h.at_level;
  }

  enqueue_at-cons :
      (x : ℕ) (q : List ℕ)
      → Holds k p (x ∷ q)
      → has idx (x ∷ q) ≡ false
      → Holds (enqueue_at p idx k) p (x ∷ (q ++ (idx ∷ [])))
  unfolding enqueue_at
  enqueue_at-cons x q h out =
      let l : last_or x q < max_tasks = last-ne-invalid (ready_next k) (k.rt_head p) x q h.chain in
      let stays : (enqueue_at p idx k).rt_head p ≡ k.rt_head p = ground arith in
      let apart : (last_or x q == idx) ≡ false =
        has-ne idx (last_or x q) (x ∷ q) (has_last x q) out in
      record {
        chain = rw stays (
            Chain-append_one (ready_next k) (ready_next (enqueue_at p idx k)) (k.rt_head p) x idx q
              h.chain h.distinct bound (ground arith) (ground arith)
              (λ y m n. ground (arith, has-ne idx y (x ∷ q) m out)));
        last = ground (arith, last_or-append_one x idx q);
        bit = ground arith;
        distinct = Distinct-append_one idx (x ∷ q) h.distinct out;
        at_level = at_level-append_one (x ∷ q) h.at_level;
      }

  enqueue_at-other :
      (p' : ℕ) (q mine : List ℕ)
      → (p' == p) ≡ false
      → Holds k p mine
      → Holds k p' q
      → Holds (enqueue_at p idx k) p' q
  unfolding enqueue_at
  enqueue_at-other p' q mine other o h =
      let heads : (enqueue_at p idx k).rt_head p' ≡ k.rt_head p' = ground arith in
      record {
        chain = rw heads (
            Chain-frame (ready_next k) (ready_next (enqueue_at p idx k)) (k.rt_head p') q h.chain
              λ x m. ground (arith, h.at_level x m, tail_at_level k p mine o));
        last = ground (arith, h.last);
        bit = ground (arith, h.bit);
        distinct = h.distinct;
        at_level = λ x m.
            level-SameButLinks k (enqueue_at p idx k) (enqueue_at-SameButLinks p idx k) x
            ∙ h.at_level x m;
      }

-- Where the ready queues hold `qs`, and a valid task is not in the queue of its level, rt_enqueue
-- puts it at the end of that queue and keeps the others; heads, tails, links and bitmap agree
-- with the lists again.
pub rt_enqueue-append :
    (idx : ℕ) (k : Sched) (qs : ℕ → List ℕ)
    → IsReadyQueues k qs
    → idx < max_tasks
    → has idx (qs (level (k.tasks idx))) ≡ false
    → IsReadyQueues
        (rt_enqueue idx k)
        (update qs (level (k.tasks idx)) (qs (level (k.tasks idx)) ++ (idx ∷ [])))
unfolding rt_enqueue
rt_enqueue-append idx k qs inv bound out p' lt =
    let p : ℕ = level (k.tasks idx) in
    let mine : Holds k p (qs p) = inv p (level-lt (k.tasks idx)) in
    elim (Bool-cases (p' == p)) [
      | inl same ↦ rw (same, eqb→eq p' p same) (append p (qs p) refl mine out)
      | inr other ↦
          rw other (enqueue_at-other p idx k bound refl p' (qs p') (qs p) other mine (inv p' lt))
    ]
  where
    append :
        (p : ℕ) (q : List ℕ)
        → level (k.tasks idx) ≡ p
        → Holds k p q
        → has idx q ≡ false
        → Holds (enqueue_at p idx k) p (q ++ (idx ∷ []))
    append p [] own h out = enqueue_at-empty p idx k bound own h
    append p (x ∷ q) own h out = enqueue_at-cons p idx k bound own x q h out
