-- ===== src/Ready/Remove.antt =====
-- rt_remove takes the task out of the queue of its level.
use halaos_stm32f103_hardwar.Prelude.{
  ℕ, zero, suc, ◌+◌, ◌≡◌, refl, sym, ◌∙◌, inl, inr, true, false, List, [], ◌∷◌, arith, ◌==◌, has,
  last_or, update, if◌then◌else◌, Bool-cases, eqb→eq, eqb→ne, has-ne, without, without_absent,
  Distinct-without, has_of_without,
}
use halaos_stm32f103_hardwar.Chain.{invalid_idx, max_tasks, Chain, Chain-frame, length-Chain}
use halaos_stm32f103_hardwar.Kernel.{Sched}
use halaos_stm32f103_hardwar.Ready.{level, rt_remove, remove_loop, unlink}
use halaos_stm32f103_hardwar.Ready.Invariant.{
  ready_next, nonempty, Holds, IsReadyQueues, level-SameButLinks, level-lt,
}
use halaos_stm32f103_hardwar.Ready.Unlink.{tail_choice, remove_loop-Cut, remove_loop-SameButLinks}

module _ (p idx : ℕ) (k : Sched) where
  unlink-elsewhere :
      (p' prev cur : ℕ)
      → (p' == p) ≡ false
      → let r = unlink p prev cur k in
        (r.rt_head p' ≡ k.rt_head p')
        × (r.rt_tail p' ≡ k.rt_tail p')
        × (r.rt_bitmap p' ≡ k.rt_bitmap p')
  unfolding unlink
  unlink-elsewhere p' prev cur other = (ground arith, ground arith, ground arith)

  -- What a level that is not `p` reads is untouched, whatever the links are.
  remove_loop-elsewhere :
      (p' fuel prev cur : ℕ)
      → (p' == p) ≡ false
      → let r = remove_loop fuel p idx prev cur k in
        (r.rt_head p' ≡ k.rt_head p')
        × (r.rt_tail p' ≡ k.rt_tail p')
        × (r.rt_bitmap p' ≡ k.rt_bitmap p')
  unfolding remove_loop
  remove_loop-elsewhere p' zero prev cur other = (refl, refl, refl)
  remove_loop-elsewhere p' (suc f) prev cur other = ground (
    arith,
    remove_loop-elsewhere p' f cur (ready_next k cur) other,
    unlink-elsewhere p' prev cur other,
  )

  record Result (q : List ℕ) (r : Sched) : Type 0 where
    chain : Chain (ready_next r) (r.rt_head p) (without idx q)
    last : r.rt_tail p ≡ last_or invalid_idx (without idx q)
    bit : r.rt_bitmap p ≡ nonempty (without idx q)
    same : (x : ℕ) → has x q ≡ false → ready_next r x ≡ ready_next k x

  unlink-Result :
      (x : ℕ) (q : List ℕ)
      → Holds k p (x ∷ q)
      → (x == idx) ≡ true
      → Result (x ∷ q) (unlink p invalid_idx x k)
  unfolding unlink
  unlink-Result x q h hit =
      let r : Sched = unlink p invalid_idx x k in
      let gone : without idx (x ∷ q) ≡ without idx q = rw hit in
      let rest : without idx q ≡ q = without_absent idx q (rw (← eqb→eq x idx hit) h.distinct.0) in
      let heads : r.rt_head p ≡ ready_next k x = ground arith in
      record {
        chain =
            rw (gone, rest, heads)
              (Chain-frame (ready_next k) (ready_next r) (ready_next k x) q h.chain.2
                λ y m. ground (arith, has-ne x y q m h.distinct.0));
        last = rw (gone, rest) (ground (arith, tail_choice invalid_idx x q h.distinct.0));
        bit = rw (gone, rest) (ground (arith, head_bit q h.chain.2));
        same = λ y m. ground arith;
      }
    where
      head_bit :
          (q : List ℕ)
          → Chain (ready_next k) (ready_next k x) q
          → (if ready_next k x == invalid_idx then false else true) ≡ nonempty q
      head_bit [] c = ground arith
      head_bit (y ∷ q) c = ground arith

  later-Result :
      (x : ℕ) (q : List ℕ)
      → Holds k p (x ∷ q)
      → (x == idx) ≡ false
      → Result (x ∷ q) (remove_loop max_tasks p idx x (ready_next k x) k)
  later-Result x q h miss =
      let c = h.chain in
      let short = length-Chain (ready_next k) (k.rt_head p) (x ∷ q) c h.distinct in
      let filled : (k.rt_head p == invalid_idx) ≡ false = ground arith in
      let cut =
        remove_loop-Cut p idx k filled max_tasks x (ready_next k x) q (omega arith) c.1 h.distinct.0
          h.distinct.1 refl c.2 h.last in
      let kept : without idx (x ∷ q) ≡ x ∷ without idx q = rw miss in
      record {
        chain = rw (kept, cut.head, c.0) cut.links;
        last = rw kept cut.tail;
        bit = rw kept (cut.bit ∙ h.bit);
        same = cut.same;
      }

  abbrev removed : Sched
  removed = remove_loop (max_tasks + 1) p idx invalid_idx (k.rt_head p) k

  remove-Result : (q : List ℕ) → Holds k p q → Result q removed
  unfolding remove_loop
  remove-Result [] h =
      rw h.chain (record { chain = h.chain; last = h.last; bit = h.bit; same = λ x m. refl })
  remove-Result (x ∷ q) h =
      let c = h.chain in
      let other : (x == invalid_idx) ≡ false = ground arith in
      elim (Bool-cases (x == idx)) [
        | inl hit ↦ rw (c.0, other, hit) (unlink-Result x q h hit)
        | inr miss ↦ rw (c.0, other, miss) (later-Result x q h miss)
      ]

  remove-Holds : (q : List ℕ) → Holds k p q → Holds removed p (without idx q)
  remove-Holds q h =
      let r = remove-Result q h in
      record {
        chain = r.chain;
        last = r.last;
        bit = r.bit;
        distinct = Distinct-without idx q h.distinct;
        at_level = λ x m.
            level-SameButLinks k removed
              (remove_loop-SameButLinks p idx k (max_tasks + 1) invalid_idx (k.rt_head p)) x
            ∙ h.at_level x (has_of_without idx x q m);
      }

  remove-other :
      (p' : ℕ) (q mine : List ℕ)
      → (p' == p) ≡ false
      → Holds k p mine
      → Holds k p' q
      → Holds removed p' q
  remove-other p' q mine other o h =
      let e = remove_loop-elsewhere p' (max_tasks + 1) invalid_idx (k.rt_head p) other in
      let r = remove-Result mine o in
      record {
        chain = rw e.0 (
            Chain-frame (ready_next k) (ready_next removed) (k.rt_head p') q h.chain
              λ x m. r.same x (absent x mine o (h.at_level x m)));
        last = e.1 ∙ h.last;
        bit = e.2 ∙ h.bit;
        distinct = h.distinct;
        at_level = λ x m.
            level-SameButLinks k removed
              (remove_loop-SameButLinks p idx k (max_tasks + 1) invalid_idx (k.rt_head p)) x
            ∙ h.at_level x m;
      }
    where
      absent : (x : ℕ) (q : List ℕ) → Holds k p q → level (k.tasks x) ≡ p' → has x q ≡ false
      absent x q h e = elim (Bool-cases (has x q)) [
        | inl m ↦ absurd (eqb→ne p' p other (sym e ∙ h.at_level x m))
        | inr out ↦ out
      ]

-- Where the ready queues hold `qs`, rt_remove drops the task from the queue of its level, keeps
-- the order of the others and every other level, and changes no queue if the task is in none;
-- heads, tails, links and bitmap agree with the lists again.
pub rt_remove-without :
    (idx : ℕ) (k : Sched) (qs : ℕ → List ℕ)
    → IsReadyQueues k qs
    → IsReadyQueues
        (rt_remove idx k)
        (update qs (level (k.tasks idx)) (without idx (qs (level (k.tasks idx)))))
unfolding rt_remove
rt_remove-without idx k qs inv p' lt =
    let p : ℕ = level (k.tasks idx) in
    let mine : Holds k p (qs p) = inv p (level-lt (k.tasks idx)) in
    elim (Bool-cases (p' == p)) [
      | inl same ↦ rw (same, eqb→eq p' p same) (remove-Holds p idx k (qs p) mine)
      | inr other ↦ rw other (remove-other p idx k p' (qs p') (qs p) other mine (inv p' lt))
    ]
