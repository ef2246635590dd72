-- ===== src/Ready/Highest.antt =====
-- highest_rt finds the first task of the first level that has one.
use halaos_stm32f103_hardwar.Prelude.{
  ℕ, zero, suc, ◌+◌, ◌<◌, ◌≡◌, refl, ◌⊎◌, inl, inr, true, false, List, [], ◌∷◌, arith, Bool-cases,
  ◌==◌, eqb→eq, eqb→ne,
}
use halaos_stm32f103_hardwar.Chain.{invalid_idx}
use halaos_stm32f103_hardwar.Kernel.{Sched}
use halaos_stm32f103_hardwar.Ready.{rt_levels, highest_rt, scan_levels}
use halaos_stm32f103_hardwar.Ready.Invariant.{Holds, IsReadyQueues}

-- `x` heads the first queue that is not empty, from level `from` on.
abbrev pub IsTop : (ℕ → List ℕ) → ℕ → ℕ → Type 0
IsTop qs from x =
    (p : ℕ) × (q : List ℕ) × (p < rt_levels)
    × (qs p ≡ x ∷ q)
    × ((p' : ℕ) → from < suc p' → p' < p → qs p' ≡ [])

abbrev pub AllEmpty : (ℕ → List ℕ) → ℕ → Type 0
AllEmpty qs from = (p : ℕ) → from < suc p → p < rt_levels → qs p ≡ []

module _ (k : Sched) (qs : ℕ → List ℕ) (inv : IsReadyQueues k qs) where
  empty_of_bit : (p : ℕ) (q : List ℕ) → Holds k p q → k.rt_bitmap p ≡ false → q ≡ []
  empty_of_bit p [] h b = refl
  empty_of_bit p (x ∷ q) h b = cc

  first_of_bit :
      (p : ℕ) (q : List ℕ)
      → Holds k p q
      → k.rt_bitmap p ≡ true
      → (r : List ℕ) × (q ≡ k.rt_head p ∷ r)
  first_of_bit p [] h b = cc
  first_of_bit p (x ∷ q) h b = (q, ground arith)

  extend : (p p' : ℕ) → qs p ≡ [] → (p + 1 < suc p' → qs p' ≡ []) → p < suc p' → qs p' ≡ []
  extend p p' e above from = elim (Bool-cases (p' == p)) [
    | inl same ↦ rw (eqb→eq p' p same) e
    | inr other ↦ above (omega (arith, eqb→ne p' p other))
  ]

  widen :
      (p x : ℕ)
      → qs p ≡ []
      → ((x ≡ invalid_idx) × AllEmpty qs (p + 1)) ⊎ IsTop qs (p + 1) x
      → ((x ≡ invalid_idx) × AllEmpty qs p) ⊎ IsTop qs p x
  widen p x e (inl (i, all)) = inl (i, λ p' a b. extend p p' e (λ n. all p' n b) a)
  widen p x e (inr (t, q, lt, top, all)) =
      inr (t, q, lt, top, λ p' a b. extend p p' e (λ n. all p' n b) a)

  scan_levels-IsTop :
      (left p : ℕ)
      → left + p ≡ rt_levels
      → ((scan_levels left p k ≡ invalid_idx) × AllEmpty qs p) ⊎ IsTop qs p (scan_levels left p k)
  unfolding scan_levels
  scan_levels-IsTop zero p e = inl (refl, λ p' a b. absurd (omega arith))
  scan_levels-IsTop (suc left) p e = elim (Bool-cases (k.rt_bitmap p)) [
    | inl set ↦
        let f = first_of_bit p (qs p) (inv p (omega arith)) set in
        rw set (inr (p, f.0, omega arith, f.1, λ p' a b. absurd (omega arith)))
    | inr clear ↦ rw clear (
        widen p (scan_levels left (p + 1) k) (empty_of_bit p (qs p) (inv p (omega arith)) clear)
          (scan_levels-IsTop left (p + 1) (omega arith)))
  ]

-- Where the ready queues hold `qs`, highest_rt returns INVALID_IDX while all of them are empty,
-- or the first task of a queue such that every level above it (of smaller number) is empty.
pub highest_rt-IsTop :
    (k : Sched) (qs : ℕ → List ℕ)
    → IsReadyQueues k qs
    → ((highest_rt k ≡ invalid_idx) × AllEmpty qs 0) ⊎ IsTop qs 0 (highest_rt k)
unfolding highest_rt
highest_rt-IsTop k qs inv = scan_levels-IsTop k qs inv rt_levels 0 refl
