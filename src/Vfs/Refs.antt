-- ===== src/Vfs/Refs.antt =====
-- The reference counts of open files (src/kernel/halaos_objects.c) count the descriptors.
use halaos_stm32f103_hardwar.Prelude.{
  ℕ, ◌+◌, ◌<◌, ◌≡◌, refl, ap, ◌∙◌, not, Option, none, some, ◌==◌, if◌then◌else◌, if-cases, inl, inr,
  Bool-cases, eqb→eq, eqb_refl, arith,
}
use halaos_stm32f103_hardwar.Ipc.{max_processes}
use halaos_stm32f103_hardwar.Vfs.{OpenFile, Vfs, max_fd, max_open_files, lower, release}
use halaos_stm32f103_hardwar.Vfs.Count.{hit, references, set_entry, references-set_entry}

-- An open file has as many references as descriptors, is used if it has one, and every descriptor
-- refers to one of the open files.
pub record IsCountedOf (t : ℕ → ℕ → Option ℕ) (f : ℕ → OpenFile) : Type 0 where
  pub refs : (o : ℕ) → o < max_open_files → (f o).refs ≡ references t o
  pub used : (o : ℕ) → o < max_open_files → (f o).used ≡ not ((f o).refs == 0)
  pub inside : (p fd o : ℕ) → t p fd ≡ some o → o < max_open_files

abbrev pub IsCounted : Vfs → Type 0
IsCounted v = IsCountedOf v.fd_table v.open_files

-- Open file `o` has one reference more than descriptors.
pub record IsOver (t : ℕ → ℕ → Option ℕ) (f : ℕ → OpenFile) (o : ℕ) : Type 0 where
  refs : (x : ℕ) → x < max_open_files → (f x).refs ≡ references t x + hit x (some o)
  used : (x : ℕ) → x < max_open_files → (f x).used ≡ not ((f x).refs == 0)
  inside : (p fd x : ℕ) → t p fd ≡ some x → x < max_open_files

pub inside-set_entry :
    (p fd : ℕ) (x : Option ℕ) (t : ℕ → ℕ → Option ℕ)
    → ((q g o : ℕ) → t q g ≡ some o → o < max_open_files)
    → ((o : ℕ) → x ≡ some o → o < max_open_files)
    → (q g o : ℕ) → set_entry p fd x t q g ≡ some o
    → o < max_open_files
inside-set_entry p fd x t old new q g o e = elim (Bool-cases (q == p)) [
  | inr other ↦ old q g o (rw other at e)
  | inl row ↦ elim (Bool-cases (g == fd)) [
    | inl here ↦ new o (rw (row, here) at e)
    | inr there ↦ old p g o (rw (row, there) at e)
  ]
]

-- Taking a descriptor away leaves one reference over.
pub cleared-IsOver :
    (p fd o : ℕ) (t : ℕ → ℕ → Option ℕ) (f : ℕ → OpenFile)
    → p < max_processes
    → fd < max_fd
    → t p fd ≡ some o
    → IsCountedOf t f
    → IsOver (set_entry p fd none t) f o
cleared-IsOver p fd o t f lp lf e c = record {
  refs = λ x lt.
      let changed = references-set_entry x p fd none t lp lf in
      let here : hit x (t p fd) ≡ hit x (some o) = ap (hit x) e in
      c.refs x lt ∙ omega (arith, changed, here);
  used = c.used;
  inside = inside-set_entry p fd none t c.inside λ x n. absurd (ground arith);
}

-- A descriptor that refers to nothing changes nothing.
pub cleared-IsCounted :
    (p fd : ℕ) (t : ℕ → ℕ → Option ℕ) (f : ℕ → OpenFile)
    → p < max_processes
    → fd < max_fd
    → t p fd ≡ none
    → IsCountedOf t f
    → IsCountedOf (set_entry p fd none t) f
cleared-IsCounted p fd t f lp lf e c = record {
  refs = λ x lt.
      let changed = references-set_entry x p fd none t lp lf in
      let here : hit x (t p fd) ≡ 0 = ap (hit x) e in c.refs x lt ∙ omega (arith, changed, here);
  used = c.used;
  inside = inside-set_entry p fd none t c.inside λ x n. absurd (ground arith);
}

pub release-IsCounted :
    (t : ℕ → ℕ → Option ℕ) (o : ℕ) (v : Vfs)
    → o < max_open_files
    → IsOver t v.open_files o
    → IsCountedOf t (release o v).open_files × ((release o v).fd_table ≡ v.fd_table)
unfolding release
release-IsCounted t o v lt c =
    let n : ℕ = (v.open_files o).refs in
    let over : n ≡ references t o + 1 =
      c.refs o lt ∙ ap (λ b. references t o + (if b then 1 else 0)) (eqb_refl o) in
    if-cases (λ (w : Vfs). IsCountedOf t w.open_files × (w.fd_table ≡ v.fd_table)) (lower n == 0) _
      _
      (λ last. (
        record {
          refs = λ x less. elim (Bool-cases (x == o)) [
            | inl same ↦ rw (same, eqb→eq x o same) (ground arith)
            | inr other ↦ rw other (c.refs x less ∙ ground arith)
          ];
          used = λ x less. elim (Bool-cases (x == o)) [
            | inl same ↦ rw same refl
            | inr other ↦ rw other (c.used x less)
          ];
          inside = c.inside;
        },
        refl,
      ))
      (λ more. (
        record {
          refs = λ x less. elim (Bool-cases (x == o)) [
            | inl same ↦ rw (same, eqb→eq x o same) (ground arith)
            | inr other ↦ rw other (c.refs x less ∙ ground arith)
          ];
          used = λ x less. elim (Bool-cases (x == o)) [
            | inl same ↦ rw same (c.used o lt ∙ ground arith)
            | inr other ↦ rw other (c.used x less)
          ];
          inside = c.inside;
        },
        refl,
      ))
