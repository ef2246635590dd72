-- ===== src/Vfs/Linked.antt =====
-- A new open file and its descriptor (src/kernel/halaos_objects.c) keep the reference counts right.
use halaos_stm32f103_hardwar.Prelude.{
  ℕ, zero, suc, ◌+◌, ◌<◌, ◌≡◌, refl, sym, ap, ◌∙◌, true, false, Option, none, some, ◌==◌,
  if◌then◌else◌, update, inl, inr, Bool-cases, Option-cases, eqb→eq, eqb_refl, arith,
}
use halaos_stm32f103_hardwar.Ipc.{max_processes}
use halaos_stm32f103_hardwar.Vfs.{OpenFile, Vfs, max_fd, max_open_files, unused_open, free_fd}
use halaos_stm32f103_hardwar.Vfs.Open.{free_open}
use halaos_stm32f103_hardwar.Vfs.Count.{hit, set_entry, references-set_entry}
use halaos_stm32f103_hardwar.Vfs.Refs.{IsCountedOf, inside-set_entry}

pub free_fd-free :
    (left fd p : ℕ) (v : Vfs) (n : ℕ)
    → free_fd left fd p v ≡ some n
    → (n < fd + left) × (v.fd_table p n ≡ none)
unfolding free_fd
free_fd-free zero fd p v n e = absurd (ground arith)
free_fd-free (suc left) fd p v n e = elim (Option-cases (v.fd_table p fd)) [
  | inl free ↦
      let here : some fd ≡ some n = rw (free, free_fd) at e in
      let same : fd ≡ n = ground arith in (ground arith, ap (v.fd_table p) (sym same) ∙ free)
  | inr (o, taken) ↦
      let r = free_fd-free left (fd + 1) p v n (rw (taken, free_fd) at e) in
      (omega (arith, r.0), r.1)
]

pub free_open-unused :
    (left o : ℕ) (v : Vfs) (n : ℕ)
    → free_open left o v ≡ some n
    → (n < o + left) × ((v.open_files n).used ≡ false)
unfolding free_open
free_open-unused zero o v n e = absurd (ground arith)
free_open-unused (suc left) o v n e = elim (Bool-cases (v.open_files o).used) [
  | inl taken ↦
      let r = free_open-unused left (o + 1) v n (rw (taken, free_open) at e) in
      (omega (arith, r.0), r.1)
  | inr free ↦
      let here : some o ≡ some n = rw (free, free_open) at e in
      let same : o ≡ n = ground arith in
      (ground arith, ap (λ x. (v.open_files x).used) (sym same) ∙ free)
]

-- A new open file with its one descriptor.
pub linked-IsCounted :
    (p fd o : ℕ) (f : OpenFile) (t : ℕ → ℕ → Option ℕ) (g : ℕ → OpenFile)
    → p < max_processes
    → fd < max_fd
    → o < max_open_files
    → t p fd ≡ none
    → (g o).used ≡ false
    → f.used ≡ true
    → f.refs ≡ 1
    → IsCountedOf t g
    → IsCountedOf (set_entry p fd (some o) t) (update g o f)
linked-IsCounted p fd o f t g lp lf lo e free up one c =
    let changed = λ (x : ℕ). references-set_entry x p fd (some o) t lp lf in
    let empty = λ (x : ℕ). (ap (hit x) e) in
    let self : hit o (some o) ≡ 1 = ap (λ b. if b then 1 else 0) (eqb_refl o) in
    let nothing : (g o).refs ≡ 0 = ground (arith, c.used o lo) in
    record {
      refs = λ x lt. elim (Bool-cases (x == o)) [
        | inl same ↦
            rw (same, eqb→eq x o same)
              (omega (arith, c.refs o lo, changed o, empty o, self, nothing, one))
        | inr other ↦
            let apart : hit x (some o) ≡ 0 = ground arith in
            rw other (omega (arith, c.refs x lt, changed x, empty x, apart))
      ];
      used = λ x lt. elim (Bool-cases (x == o)) [
        | inl same ↦ rw (same, one) up
        | inr other ↦ rw other (c.used x lt)
      ];
      inside = inside-set_entry p fd (some o) t c.inside λ x n. ground arith;
    }

-- Taking back an open file that has not been linked.
pub unlinked-IsCounted :
    (o : ℕ) (f : OpenFile) (t : ℕ → ℕ → Option ℕ) (g : ℕ → OpenFile)
    → o < max_open_files
    → (g o).used ≡ false
    → IsCountedOf t g
    → IsCountedOf t (update (update g o f) o unused_open)
unlinked-IsCounted o f t g lo free c =
    let nothing : (g o).refs ≡ 0 = ground (arith, c.used o lo) in
    record {
      refs = λ x lt. elim (Bool-cases (x == o)) [
        | inl same ↦ rw (same, eqb→eq x o same) (sym nothing ∙ c.refs o lo)
        | inr other ↦ rw other (c.refs x lt)
      ];
      used = λ x lt. elim (Bool-cases (x == o)) [
        | inl same ↦ rw same refl
        | inr other ↦ rw other (c.used x lt)
      ];
      inside = c.inside;
    }
