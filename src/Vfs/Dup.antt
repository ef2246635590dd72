-- ===== src/Vfs/Dup.antt =====
-- Duplicating descriptors, and releasing those of a process (src/kernel/halaos_objects.c), keeps the
-- reference counts right.
use halaos_stm32f103_hardwar.Prelude.{
  ℕ, zero, suc, ◌+◌, ◌≤◌, ◌<◌, ◌≡◌, refl, true, false, not, ◌&&◌, ◌||◌, none, some, ◌==◌, ltb, leb,
  if-cases, update, inl, inr, Bool-cases, Option-cases, eqb_refl, arith,
}
use halaos_stm32f103_hardwar.Ipc.{Kobj, max_processes, process_by_pid}
use halaos_stm32f103_hardwar.Vfs.{
  Vfs, max_fd, max_open_files, set_fd, lower, fd_slot, release, close_fd, release_fd, release_loop,
  fd_release_owned, close_slot, dup_slot, dup2_slot, kobj_vfs_close, kobj_vfs_dup2,
}
use halaos_stm32f103_hardwar.Vfs.Count.{set_entry}
use halaos_stm32f103_hardwar.Vfs.Refs.{
  IsCounted, cleared-IsOver, cleared-IsCounted, release-IsCounted,
}
use halaos_stm32f103_hardwar.Vfs.Close.{
  close_fd-IsCounted, close_slot-IsCounted, entry-used, link_fd-IsCounted, process_by_pid-lt,
}

release-table : (o : ℕ) (v : Vfs) → (release o v).fd_table ≡ v.fd_table
unfolding release
release-table o v =
    if-cases (λ (w : Vfs). w.fd_table ≡ v.fd_table) (lower (v.open_files o).refs == 0) _ _
      (λ t. refl) λ t. refl

close_fd-table :
    (p fd o : ℕ) (v : Vfs) → (close_fd p fd o v).fd_table ≡ set_entry p fd none v.fd_table
unfolding close_fd
close_fd-table p fd o v =
    release-table o
      (record (set_fd p fd none v) { fd_count = update v.fd_count p (lower (v.fd_count p)) })

close_slot-open :
    (p fd o : ℕ) (v : Vfs)
    → p < max_processes
    → fd < max_fd
    → v.fd_table p fd ≡ some o
    → IsCounted v
    → close_slot (some p) fd v ≡ (0, close_fd p fd o v)
unfolding close_slot fd_slot
close_slot-open p fd o v lp lf e c =
    let up = entry-used p fd o v lp lf e c in
    let lo = c.inside p fd o e in
    let within : leb max_fd fd ≡ false = ground arith in
    let fine : (leb max_open_files o || not (v.open_files o).used) ≡ false = ground arith in
    rw (close_slot, within, e, fine) refl

dup_slot-IsCounted :
    (p oldfd newfd o : ℕ) (v : Vfs)
    → p < max_processes
    → oldfd < max_fd
    → newfd < max_fd
    → (oldfd == newfd) ≡ false
    → v.fd_table p oldfd ≡ some o
    → IsCounted v
    → IsCounted (dup_slot p o newfd v).1
unfolding dup_slot
dup_slot-IsCounted p oldfd newfd o v lp lo ln apart e c = elim (Option-cases (v.fd_table p newfd)) [
  | inl free ↦
      rw (dup_slot, free)
        (link_fd-IsCounted p newfd o v lp ln (c.inside p oldfd o e) free
          (entry-used p oldfd o v lp lo e c) c)
  | inr (old, taken) ↦
      let w : Vfs = close_fd p newfd old v in
      let d = close_fd-IsCounted p newfd old v lp ln taken c in
      let table = close_fd-table p newfd old v in
      let free : w.fd_table p newfd ≡ none = rw (table, eqb_refl p, eqb_refl newfd) refl in
      let still : w.fd_table p oldfd ≡ some o = rw (table, eqb_refl p, apart) e in
      rw (dup_slot, taken, close_slot-open p newfd old v lp ln taken c)
        (link_fd-IsCounted p newfd o w lp ln (d.inside p oldfd o still) free
          (entry-used p oldfd o w lp lo still d) d)
]

dup2_slot-IsCounted :
    (p oldfd newfd : ℕ) (v : Vfs)
    → p < max_processes
    → IsCounted v
    → IsCounted (dup2_slot (some p) oldfd newfd v).1
unfolding dup2_slot fd_slot
dup2_slot-IsCounted p oldfd newfd v lp c = elim (Bool-cases (leb max_fd oldfd)) [
  | inl outside ↦ rw (dup2_slot, outside) c
  | inr within ↦ elim (Option-cases (v.fd_table p oldfd)) [
    | inl closed ↦ rw (dup2_slot, within, closed) c
    | inr (o, e) ↦
        rw (dup2_slot, within, e)
          (if-cases (λ (w : ℕ × Vfs). IsCounted w.1) (leb max_fd newfd) _ _ (λ out. c)
            λ inside.
              if-cases (λ (w : ℕ × Vfs). IsCounted w.1) (oldfd == newfd) _ _ (λ equal. c)
                λ apart.
                  dup_slot-IsCounted p oldfd newfd o v lp (ground arith) (ground arith) apart e c)
  ]
]

release_fd-IsCounted :
    (p fd : ℕ) (v : Vfs)
    → p < max_processes
    → fd < max_fd
    → IsCounted v
    → IsCounted (release_fd p fd v)
unfolding release_fd
release_fd-IsCounted p fd v lp lf c = elim (Option-cases (v.fd_table p fd)) [
  | inl closed ↦
      rw (release_fd, closed) (cleared-IsCounted p fd v.fd_table v.open_files lp lf closed c)
  | inr (o, e) ↦
      let up = entry-used p fd o v lp lf e c in
      let lo = c.inside p fd o e in
      let (counted, same) =
        release-IsCounted (set_entry p fd none v.fd_table) o v lo
          (cleared-IsOver p fd o v.fd_table v.open_files lp lf e c) in
      let fine : (ltb o max_open_files && (v.open_files o).used) ≡ true = ground arith in
      rw (release_fd, e, fine, same) counted
]

release_loop-IsCounted :
    (left fd p : ℕ) (v : Vfs)
    → p < max_processes
    → fd + left ≤ max_fd
    → IsCounted v
    → IsCounted (release_loop left fd p v)
unfolding release_loop
release_loop-IsCounted zero fd p v lp le c = c
release_loop-IsCounted (suc left) fd p v lp le c =
    release_loop-IsCounted left (fd + 1) p (release_fd p fd v) lp (omega arith)
      (release_fd-IsCounted p fd v lp (omega arith) c)

pub fd_release_owned-IsCounted :
    (p : ℕ) (v : Vfs) → p < max_processes → IsCounted v → IsCounted (fd_release_owned p v)
unfolding fd_release_owned
fd_release_owned-IsCounted p v lp c = release_loop-IsCounted max_fd 0 p v lp (omega arith) c

pub kobj_vfs_close-IsCounted :
    (k : Kobj) (pid fd : ℕ) (v : Vfs) → IsCounted v → IsCounted (kobj_vfs_close k pid fd v).1
unfolding kobj_vfs_close close_slot
kobj_vfs_close-IsCounted k pid fd v c = elim (Option-cases (process_by_pid pid k)) [
  | inl nobody ↦ rw nobody c
  | inr (p, e) ↦ rw e (close_slot-IsCounted p fd v (process_by_pid-lt pid k p e) c)
]

pub kobj_vfs_dup2-IsCounted :
    (k : Kobj) (pid oldfd newfd : ℕ) (v : Vfs)
    → IsCounted v
    → IsCounted (kobj_vfs_dup2 k pid oldfd newfd v).1
unfolding kobj_vfs_dup2 dup2_slot
kobj_vfs_dup2-IsCounted k pid oldfd newfd v c = elim (Option-cases (process_by_pid pid k)) [
  | inl nobody ↦ rw nobody c
  | inr (p, e) ↦ rw e (dup2_slot-IsCounted p oldfd newfd v (process_by_pid-lt pid k p e) c)
]
