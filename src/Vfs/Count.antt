-- ===== src/Vfs/Count.antt =====
-- How many descriptors refer to an open file of src/kernel/halaos_objects.c.
use halaos_stm32f103_hardwar.Prelude.{
  ℕ, zero, suc, ◌+◌, ◌≤◌, ◌<◌, ◌≡◌, refl, ap, ap₂, ◌∙◌, Option, none, some, ◌==◌, if◌then◌else◌,
  update, inl, inr, Bool-cases, eqb→eq, arith,
}
use halaos_stm32f103_hardwar.Ipc.{max_processes}
use halaos_stm32f103_hardwar.Vfs.{max_fd}

pub sum : ℕ → (ℕ → ℕ) → ℕ
sum zero f = 0
sum (suc n) f = f n + sum n f

pub sum_ext : (n : ℕ) (f g : ℕ → ℕ) → ((i : ℕ) → f i ≡ g i) → sum n f ≡ sum n g
unfolding sum
sum_ext zero f g e = refl
sum_ext (suc n) f g e = ap₂ (λ x y. x + y) (e n) (sum_ext n f g e)

sum-update_above : (n i x : ℕ) (f : ℕ → ℕ) → n ≤ i → sum n (update f i x) ≡ sum n f
unfolding sum
sum-update_above zero i x f le = refl
sum-update_above (suc n) i x f le = ground (arith, sum-update_above n i x f (omega arith))

-- One term changes.
pub sum-update : (n i x : ℕ) (f : ℕ → ℕ) → i < n → sum n (update f i x) + f i ≡ sum n f + x
unfolding sum
sum-update zero i x f lt = absurd (omega arith)
sum-update (suc n) i x f lt = elim (Bool-cases (n == i)) [
  | inl last ↦
      let here = eqb→eq n i last in
      let rest = sum-update_above n i x f (omega arith) in
      let value : f n ≡ f i = ap f here in ground arith
  | inr before ↦ let rest = sum-update n i x f (ground arith) in ground arith
]

sum_mono : (n : ℕ) (f g : ℕ → ℕ) → ((i : ℕ) → f i ≤ g i) → sum n f ≤ sum n g
unfolding sum
sum_mono zero f g le = omega arith
sum_mono (suc n) f g le = omega (arith, le n, sum_mono n f g le)

-- A table entry refers to open file `o`.
abbrev pub hit : ℕ → Option ℕ → ℕ
hit o none = 0
hit o (some x) = if x == o then 1 else 0

abbrev pub row_count : ℕ → (ℕ → Option ℕ) → ℕ
row_count o row = sum max_fd (λ fd. hit o (row fd))

abbrev pub references : (ℕ → ℕ → Option ℕ) → ℕ → ℕ
references t o = sum max_processes (λ p. row_count o (t p))

hit_bound : (o : ℕ) (x : Option ℕ) → hit o x ≤ 1
hit_bound o none = omega arith
hit_bound o (some x) = ground arith

pub references_bound : (t : ℕ → ℕ → Option ℕ) (o : ℕ) → references t o ≤ 48
unfolding sum
references_bound t o =
    sum_mono max_processes (λ p. row_count o (t p)) (λ p. 6)
      λ p. sum_mono max_fd (λ fd. hit o (t p fd)) (λ fd. 1) λ fd. hit_bound o (t p fd)

-- An entry of the table changes.
abbrev pub set_entry : ℕ → ℕ → Option ℕ → (ℕ → ℕ → Option ℕ) → ℕ → ℕ → Option ℕ
set_entry p fd x t = update t p (update (t p) fd x)

row_count-update :
    (o fd : ℕ) (x : Option ℕ) (row : ℕ → Option ℕ)
    → fd < max_fd
    → row_count o (update row fd x) + hit o (row fd) ≡ row_count o row + hit o x
row_count-update o fd x row lt =
    let f = λ (i : ℕ). hit o (row i) in
    let same =
      sum_ext max_fd (λ i. hit o (update row fd x i)) (update f fd (hit o x))
        λ i. elim (Bool-cases (i == fd)) [ inl here ↦ rw here refl | inr there ↦ rw there refl ] in
    let changed = sum-update max_fd fd (hit o x) f lt in ap (λ n. n + hit o (row fd)) same ∙ changed

pub references-set_entry :
    (o p fd : ℕ) (x : Option ℕ) (t : ℕ → ℕ → Option ℕ)
    → p < max_processes
    → fd < max_fd
    → references (set_entry p fd x t) o + hit o (t p fd) ≡ references t o + hit o x
references-set_entry o p fd x t lp lf =
    let row' = update (t p) fd x in
    let f = λ (i : ℕ). row_count o (t i) in
    let same =
      sum_ext max_processes (λ i. row_count o (set_entry p fd x t i))
        (update f p (row_count o row'))
        λ i. elim (Bool-cases (i == p)) [ inl here ↦ rw here refl | inr there ↦ rw there refl ] in
    let rows = sum-update max_processes p (row_count o row') f lp in
    let row = row_count-update o fd x (t p) lf in omega (arith, same, rows, row)

pub references_empty : (o : ℕ) → references (λ p fd. none) o ≡ 0
unfolding sum
references_empty o = refl
