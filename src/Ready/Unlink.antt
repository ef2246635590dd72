-- ===== src/Ready/Unlink.antt =====
-- The walk of rt_remove along a queue, and what it unlinks.
use halaos_stm32f103_hardwar.Prelude.{
  ℕ, zero, suc, ◌<◌, ◌≡◌, refl, ◌∙◌, inl, inr, true, false, List, [], ◌∷◌, arith, ◌==◌, has,
  Distinct, last_or, length, if◌then◌else◌, Bool-cases, eqb→eq, eqb_refl, has-ne, without,
  without_absent,
}
use halaos_stm32f103_hardwar.Chain.{invalid_idx, max_tasks, Chain, Chain-frame, has_last}
use halaos_stm32f103_hardwar.Kernel.{Sched}
use halaos_stm32f103_hardwar.Ready.{remove_loop, unlink}
use halaos_stm32f103_hardwar.Ready.Invariant.{ready_next, SameButLinks}

-- The part of the queue behind `prev`, once `idx` is gone from it.
pub record Cut (k : Sched) (p idx prev : ℕ) (q : List ℕ) (r : Sched) : Type 0 where
  pub links : Chain (ready_next r) prev (prev ∷ without idx q)
  pub same : (x : ℕ) → has x (prev ∷ q) ≡ false → ready_next r x ≡ ready_next k x
  pub tail : r.rt_tail p ≡ last_or prev (without idx q)
  pub head : r.rt_head p ≡ k.rt_head p
  pub bit : r.rt_bitmap p ≡ k.rt_bitmap p

pub tail_choice :
    (prev x : ℕ) (q : List ℕ)
    → has x q ≡ false
    → (if last_or x q == x then prev else last_or x q) ≡ last_or prev q
tail_choice prev x [] out = ground (arith, eqb_refl x)
tail_choice prev x (y ∷ q) out = ground (arith, has-ne x (last_or y q) (y ∷ q) (has_last y q) out)

module _ (p idx : ℕ) (k : Sched) where
  unlink-SameButLinks : (prev cur : ℕ) → SameButLinks k (unlink p prev cur k)
  unfolding unlink
  unlink-SameButLinks prev cur x = ground arith

  pub remove_loop-SameButLinks :
      (fuel prev cur : ℕ) → SameButLinks k (remove_loop fuel p idx prev cur k)
  unfolding remove_loop
  remove_loop-SameButLinks zero prev cur x = refl
  remove_loop-SameButLinks (suc f) prev cur x =
      ground
        (arith, remove_loop-SameButLinks f cur (ready_next k cur) x, unlink-SameButLinks prev cur x)

  module _ (nonempty_head : (k.rt_head p == invalid_idx) ≡ false) where
    unlink-Cut :
        (prev x : ℕ) (q : List ℕ)
        → prev < max_tasks
        → has prev (x ∷ q) ≡ false
        → Distinct (x ∷ q)
        → Chain (ready_next k) x (x ∷ q)
        → k.rt_tail p ≡ last_or prev (x ∷ q)
        → (x == idx) ≡ true
        → Cut k p idx prev (x ∷ q) (unlink p prev x k)
    unfolding unlink
    unlink-Cut prev x q lt out d c last hit =
        let gone : without idx (x ∷ q) ≡ without idx q = ground arith in
        let rest : without idx q ≡ q = without_absent idx q (rw (← eqb→eq x idx hit) d.0) in
        let prev_ne : (prev == invalid_idx) ≡ false = ground arith in
        let apart : (prev == x) ≡ false = ground arith in
        let step : ready_next (unlink p prev x k) prev ≡ ready_next k x = ground arith in
        record {
          links =
              rw (gone, rest, step)
                (
                  refl,
                  lt,
                  Chain-frame (ready_next k) (ready_next (unlink p prev x k)) (ready_next k x) q c.2
                      λ y m. ground (arith, has-ne x y q m d.0, has-ne prev y q m),
                );
          same = λ y m. ground arith;
          tail = rw (gone, rest) (ground (arith, tail_choice prev x q d.0));
          head = ground arith;
          bit = ground arith;
        }

    Cut-cons :
        (prev x : ℕ) (q : List ℕ)
        → prev < max_tasks
        → has prev (x ∷ q) ≡ false
        → ready_next k prev ≡ x
        → (x == idx) ≡ false
        → (r : Sched) → Cut k p idx x q r
        → Cut k p idx prev (x ∷ q) r
    Cut-cons prev x q lt out link miss r cut =
        let kept : without idx (x ∷ q) ≡ x ∷ without idx q = rw miss in
        let step : ready_next r prev ≡ x = cut.same prev out ∙ link in
        record {
          links = rw (kept, step) (refl, lt, cut.links);
          same = λ y m. cut.same y (ground arith);
          tail = rw kept cut.tail;
          head = cut.head;
          bit = cut.bit;
        }

    pub remove_loop-Cut :
        (fuel prev cur : ℕ) (q : List ℕ)
        → length q < fuel
        → prev < max_tasks
        → has prev q ≡ false
        → Distinct q
        → ready_next k prev ≡ cur
        → Chain (ready_next k) cur q
        → k.rt_tail p ≡ last_or prev q
        → Cut k p idx prev q (remove_loop fuel p idx prev cur k)
    unfolding remove_loop
    remove_loop-Cut zero prev cur q enough lt out d link c last = absurd (omega arith)
    remove_loop-Cut (suc f) prev cur [] enough lt out d link c last = rw c (record {
      links = (refl, lt, link ∙ c);
      same = λ x m. refl;
      tail = last;
      head = refl;
      bit = refl;
    })
    remove_loop-Cut (suc f) prev cur (x ∷ q) enough lt out d link c last =
        let other : (x == invalid_idx) ≡ false = ground arith in
        elim (Bool-cases (x == idx)) [
          | inl hit ↦ rw (c.0, other, hit) (unlink-Cut prev x q lt out d (refl, c.1, c.2) last hit)
          | inr miss ↦
              rw (c.0, other, miss)
                (Cut-cons prev x q lt out (link ∙ c.0) miss
                  (remove_loop f p idx x (ready_next k x) k)
                  (remove_loop-Cut f x (ready_next k x) q (omega arith) c.1 d.0 d.1 refl c.2 last))
        ]
