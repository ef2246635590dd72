-- ===== src/Ready/Rotate.antt =====
-- rt_rotate moves the first task of a level behind the others.
use halaos_stm32f103_hardwar.Prelude.{
  ℕ, ◌<◌, ◌≡◌, refl, subst, ◌∙◌, ◌⊎◌, inl, inr, true, false, List, [], ◌∷◌, ◌++◌, arith, ◌==◌, leb,
  has, last_or, update, if◌then◌else◌, Bool-cases, eqb→eq, eqb_refl, has-ne, has-append,
  Distinct-append_one, last_or-append_one,
}
use halaos_stm32f103_hardwar.Chain.{invalid_idx, Chain-frame, Chain-append_one, has_last}
use halaos_stm32f103_hardwar.Kernel.{Sched}
use halaos_stm32f103_hardwar.Ready.{level, rt_levels, rt_rotate, move_head}
use halaos_stm32f103_hardwar.Ready.Invariant.{
  ready_next, Holds, IsReadyQueues, level-SameButLinks, SameButLinks,
}

unfoldable pub rotate : List ℕ → List ℕ
rotate [] = []
rotate (x ∷ q) = q ++ (x ∷ [])

module _ (p : ℕ) (k : Sched) where
  move_head-SameButLinks : SameButLinks k (move_head p k)
  unfolding move_head
  move_head-SameButLinks x = ground arith

  move_head-Holds :
      (x y : ℕ) (q : List ℕ) → Holds k p (x ∷ y ∷ q) → Holds (move_head p k) p (y ∷ (q ++ (x ∷ [])))
  unfolding move_head
  move_head-Holds x y q h =
      let r : Sched = move_head p k in
      let c = h.chain in
      let out : has x (y ∷ q) ≡ false = h.distinct.0 in
      let apart : (last_or y q == x) ≡ false = has-ne x (last_or y q) (y ∷ q) (has_last y q) out in
      let heads : r.rt_head p ≡ y = ground arith in
      record {
        chain = rw heads (
            Chain-append_one (ready_next k) (ready_next r) y y x q (refl, c.2.1, c.2.2) h.distinct.1
              c.1 (ground arith) (ground arith)
              (λ z m n. ground (arith, has-ne x z (y ∷ q) m out)));
        last = ground (arith, last_or-append_one y x q);
        bit = ground arith;
        distinct = Distinct-append_one x (y ∷ q) h.distinct.1 out;
        at_level = λ z m.
            level-SameButLinks k r move_head-SameButLinks z
            ∙ h.at_level z (ground (arith, has-append z (y ∷ q) (x ∷ [])));
      }

  move_head-other :
      (p' x y : ℕ) (q mine : List ℕ)
      → (p' == p) ≡ false
      → Holds k p (x ∷ y ∷ mine)
      → Holds k p' q
      → Holds (move_head p k) p' q
  unfolding move_head
  move_head-other p' x y q mine other o h =
      let r : Sched = move_head p k in
      let heads : r.rt_head p' ≡ k.rt_head p' = ground arith in
      let top : level (k.tasks x) ≡ p = o.at_level x (ground (arith, eqb_refl x)) in
      let bottom : level (k.tasks (last_or y mine)) ≡ p =
        o.at_level (last_or y mine) (has_last x (y ∷ mine)) in
      let c = o.chain in
      let l = o.last in
      record {
        chain = rw heads (
            Chain-frame (ready_next k) (ready_next r) (k.rt_head p') q h.chain
              λ z m. ground (arith, h.at_level z m));
        last = ground (arith, h.last);
        bit = ground (arith, h.bit);
        distinct = h.distinct;
        at_level = λ z m. level-SameButLinks k r move_head-SameButLinks z ∙ h.at_level z m;
      }

-- What rt_rotate does to a level `p'`, `p` holding `q`: nothing, or it moves the head of `p`.
rotate-cases :
    (p : ℕ) (k : Sched) (q : List ℕ)
    → p < rt_levels
    → Holds k p q
    → ((rt_rotate p k ≡ k) × (rotate q ≡ q))
      ⊎ ((x y : ℕ) × (q' : List ℕ) × (q ≡ x ∷ y ∷ q') × (rt_rotate p k ≡ move_head p k))
unfolding rt_rotate rotate
rotate-cases p k [] lt h =
    let in_range : leb rt_levels p ≡ false = ground arith in
    let none_there : (k.rt_head p == invalid_idx) ≡ true = ground arith in
    inl (rw (in_range, none_there), refl)
rotate-cases p k (x ∷ []) lt h =
    let in_range : leb rt_levels p ≡ false = ground arith in
    let one : (k.rt_head p == invalid_idx) ≡ false = ground arith in
    let c = h.chain in
    let alone : (ready_next k (k.rt_head p) == invalid_idx) ≡ true = rw (c.0, c.2) refl in
    inl (rw (in_range, one, alone), refl)
rotate-cases p k (x ∷ y ∷ q) lt h =
    let in_range : leb rt_levels p ≡ false = ground arith in
    let one : (k.rt_head p == invalid_idx) ≡ false = ground arith in
    let c = h.chain in
    let more : (ready_next k (k.rt_head p) == invalid_idx) ≡ false =
      rw (c.0, c.2.0) (ground arith) in
    inr (x, y, q, refl, rw (in_range, one, more))

rotate-above : (p : ℕ) (k : Sched) → leb rt_levels p ≡ true → rt_rotate p k ≡ k
unfolding rt_rotate
rotate-above p k above = rw above

-- Where the ready queues hold `qs`, rt_rotate on a level below RT_LEVELS moves the first task of
-- that level behind the others (a queue of at most one task stays), and keeps every other level;
-- on a higher level it does nothing.
pub rt_rotate-rotate :
    (p : ℕ) (k : Sched) (qs : ℕ → List ℕ)
    → IsReadyQueues k qs
    → IsReadyQueues (rt_rotate p k) (update qs p (rotate (qs p)))
unfolding rotate
rt_rotate-rotate p k qs inv p' lt = elim (Bool-cases (leb rt_levels p)) [
  | inl above ↦
      let other : (p' == p) ≡ false = ground arith in rw (rotate-above p k above, other) (inv p' lt)
  | inr below ↦
      within (ground arith) (qs p) refl
        (rotate-cases p k (qs p) (ground arith) (inv p (ground arith)))
]
  where
    within :
        p < rt_levels
        → (q : List ℕ) → qs p ≡ q
        → ((rt_rotate p k ≡ k) × (rotate q ≡ q))
          ⊎ ((x y : ℕ) × (q' : List ℕ) × (q ≡ x ∷ y ∷ q') × (rt_rotate p k ≡ move_head p k))
        → Holds (rt_rotate p k) p' (if p' == p then rotate q else qs p')
    within low q e (inl (same, stays)) =
        rw (same, stays)
          (elim (Bool-cases (p' == p)) [
            | inl own ↦ rw (own, ← e, ← eqb→eq p' p own) (inv p' lt)
            | inr other ↦ rw other (inv p' lt)
          ])
    within low q e (inr (x, y, q', shape, moved)) =
        let mine : Holds k p (x ∷ y ∷ q') = subst (Holds k p) (e ∙ shape) (inv p low) in
        rw (moved, shape)
          (elim (Bool-cases (p' == p)) [
            | inl own ↦ rw (own, eqb→eq p' p own) (move_head-Holds p k x y q' mine)
            | inr other ↦ rw other (move_head-other p k p' x y (qs p') q' other mine (inv p' lt))
          ])
