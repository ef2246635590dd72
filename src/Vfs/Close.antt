-- ===== src/Vfs/Close.antt =====
-- Closing and duplicating descriptors (src/kernel/halaos_objects.c) keeps the reference counts right.
use halaos_stm32f103_hardwar.Prelude.{
  ℕ, zero, suc, ◌+◌, ◌<◌, ◌≡◌, ap, ◌∙◌, true, not, ◌&&◌, ◌||◌, none, some, ◌==◌, leb, if◌then◌else◌,
  if-cases, update, inl, inr, Bool-cases, Option-cases, eqb→eq, eqb_refl, arith,
}
use halaos_stm32f103_hardwar.Ipc.{Kobj, max_processes, find_process, process_by_pid}
use halaos_stm32f103_hardwar.Vfs.{
  Vfs, max_fd, max_open_files, set_fd, lower, fd_slot, close_fd, close_slot, link_fd,
}
use halaos_stm32f103_hardwar.Vfs.Count.{hit, references_bound, set_entry, references-set_entry}
use halaos_stm32f103_hardwar.Vfs.Refs.{
  IsCounted, inside-set_entry, cleared-IsOver, release-IsCounted,
}

pub close_fd-IsCounted :
    (p fd o : ℕ) (v : Vfs)
    → p < max_processes
    → fd < max_fd
    → v.fd_table p fd ≡ some o
    → IsCounted v
    → IsCounted (close_fd p fd o v)
unfolding close_fd
close_fd-IsCounted p fd o v lp lf e c =
    let t' = set_entry p fd none v.fd_table in
    let v₁ : Vfs = record (set_fd p fd none v) {
      fd_count = update v.fd_count p (lower (v.fd_count p));
    } in
    let (counted, same) =
      release-IsCounted t' o v₁ (c.inside p fd o e)
        (cleared-IsOver p fd o v.fd_table v.open_files lp lf e c) in
    rw same counted

pub close_slot-IsCounted :
    (p fd : ℕ) (v : Vfs) → p < max_processes → IsCounted v → IsCounted (close_slot (some p) fd v).1
unfolding close_slot fd_slot
close_slot-IsCounted p fd v lp c = elim (Bool-cases (leb max_fd fd)) [
  | inl outside ↦ rw (close_slot, outside) c
  | inr within ↦ elim (Option-cases (v.fd_table p fd)) [
    | inl closed ↦ rw (close_slot, within, closed) c
    | inr (o, e) ↦
        rw (close_slot, within, e)
          (if-cases (λ (w : ℕ × Vfs). IsCounted w.1)
            (leb max_open_files o || not (v.open_files o).used) _ _ (λ bad. c)
            λ fine. close_fd-IsCounted p fd o v lp (ground arith) e c)
  ]
]

-- A descriptor refers to an open file that is used.
pub entry-used :
    (p fd o : ℕ) (v : Vfs)
    → p < max_processes
    → fd < max_fd
    → v.fd_table p fd ≡ some o
    → IsCounted v
    → (v.open_files o).used ≡ true
entry-used p fd o v lp lf e c =
    let lo = c.inside p fd o e in
    let changed = references-set_entry o p fd none v.fd_table lp lf in
    let here : hit o (v.fd_table p fd) ≡ 1 =
      ap (hit o) e ∙ ap (λ b. if b then 1 else 0) (eqb_refl o) in
    c.used o lo ∙ ground (arith, c.refs o lo, changed, here)

pub link_fd-IsCounted :
    (p fd o : ℕ) (v : Vfs)
    → p < max_processes
    → fd < max_fd
    → o < max_open_files
    → v.fd_table p fd ≡ none
    → (v.open_files o).used ≡ true
    → IsCounted v
    → IsCounted (link_fd p fd o v)
unfolding link_fd
link_fd-IsCounted p fd o v lp lf lo e up c =
    let t' = set_entry p fd (some o) v.fd_table in
    let changed = λ (x : ℕ). references-set_entry x p fd (some o) v.fd_table lp lf in
    let empty = λ (x : ℕ). (ap (hit x) e) in
    let few = references_bound v.fd_table o in
    let self : hit o (some o) ≡ 1 = ap (λ b. if b then 1 else 0) (eqb_refl o) in
    record {
      refs = λ x lt. elim (Bool-cases (x == o)) [
        | inl same ↦
            rw (same, eqb→eq x o same) (omega (arith, c.refs o lo, changed o, empty o, few, self))
        | inr other ↦
            let apart : hit x (some o) ≡ 0 = ground arith in
            rw other (omega (arith, c.refs x lt, changed x, empty x, apart))
      ];
      used = λ x lt. elim (Bool-cases (x == o)) [
        | inl same ↦ rw same (ground (arith, up, c.refs o lo, few))
        | inr other ↦ rw other (c.used x lt)
      ];
      inside = inside-set_entry p fd (some o) v.fd_table c.inside λ x n. ground arith;
    }

find_process-lt :
    (left i pid : ℕ) (k : Kobj) (p : ℕ) → find_process left i pid k ≡ some p → p < i + left
unfolding find_process
find_process-lt zero i pid k p e = absurd (ground arith)
find_process-lt (suc left) i pid k p e =
    elim (Bool-cases (not (k.processes i).free && ((k.processes i).pid == pid))) [
      | inl here ↦ ground arith
      | inr there ↦ omega (arith, find_process-lt left (i + 1) pid k p (ground arith))
    ]

pub process_by_pid-lt :
    (pid : ℕ) (k : Kobj) (p : ℕ) → process_by_pid pid k ≡ some p → p < max_processes
unfolding process_by_pid
process_by_pid-lt pid k p e = find_process-lt max_processes 0 pid k p e
