-- ===== src/Vfs/Opened.antt =====
-- kobj_vfs_open (src/kernel/halaos_objects.c) keeps the reference counts right.
use halaos_stm32f103_hardwar.Prelude.{
  ℕ, ◌+◌, ◌%◌, u8_mod, ◌<◌, ◌≡◌, refl, true, false, Option, none, some, List, if-cases, update, inl,
  inr, Option-cases, inc32,
}
use halaos_stm32f103_hardwar.Ipc.{Kobj, max_processes, process_by_pid}
use halaos_stm32f103_hardwar.Vfs.{
  Node, OpenFile, Vfs, max_open_files, max_files, set_fd, set_open, free_fd, allocate_fd,
}
use halaos_stm32f103_hardwar.Vfs.Path.{
  FsId, is_absolute, vfs_resolve_mount, virtual_node, path_component_valid,
}
use halaos_stm32f103_hardwar.Vfs.Open.{
  Target, tmp_file_by_path, free_file, create_file, truncates, truncate, creates, open_tmp,
  find_target, free_open, open_at, opened, open_node, open_target, open_path, kobj_vfs_open,
}
use halaos_stm32f103_hardwar.Vfs.Refs.{IsCounted}
use halaos_stm32f103_hardwar.Vfs.Close.{process_by_pid-lt}
use halaos_stm32f103_hardwar.Vfs.Linked.{
  free_fd-free, free_open-unused, linked-IsCounted, unlinked-IsCounted,
}

allocate_fd-full : (p o : ℕ) (v : Vfs) → free_fd 3 3 p v ≡ none → allocate_fd p o v ≡ (none, v)
unfolding allocate_fd
allocate_fd-full p o v full = rw (allocate_fd, full) refl

allocate_fd-found :
    (p o fd : ℕ) (v : Vfs)
    → free_fd 3 3 p v ≡ some fd
    → allocate_fd p o v ≡ (
      some fd,
      record (set_fd p fd (some o) v) {
        fd_count = update v.fd_count p ((v.fd_count p + 1) % u8_mod);
      },
    )
unfolding allocate_fd
allocate_fd-found p o fd v e = rw (allocate_fd, e) refl

open_at-IsCounted :
    (p o : ℕ) (f : OpenFile) (v : Vfs)
    → p < max_processes
    → o < max_open_files
    → (v.open_files o).used ≡ false
    → f.used ≡ true
    → f.refs ≡ 1
    → IsCounted v
    → IsCounted (open_at p o f v).1
unfolding open_at opened
open_at-IsCounted p o f v lp lo free up one c =
    elim (Option-cases (free_fd 3 3 p (set_open o f v))) [
      | inl full ↦
          rw (open_at, allocate_fd-full p o (set_open o f v) full)
            (unlinked-IsCounted o f v.fd_table v.open_files lo free c)
      | inr (fd, e) ↦
          let (low, closed) = free_fd-free 3 3 p (set_open o f v) fd e in
          rw (open_at, allocate_fd-found p o fd (set_open o f v) e)
            (linked-IsCounted p fd o f v.fd_table v.open_files lp low lo closed free up one c)
    ]

open_node-IsCounted :
    (p pid : ℕ) (kind : Node) (node flags : ℕ) (v : Vfs)
    → p < max_processes
    → IsCounted v
    → IsCounted (open_node p pid kind node flags v).1
unfolding open_node
open_node-IsCounted p pid kind node flags v lp c =
    elim (Option-cases (free_open max_open_files 0 v)) [
      | inl full ↦ rw (open_node, full) c
      | inr (o, e) ↦
          let (lo, free) = free_open-unused max_open_files 0 v o e in
          rw (open_node, e) (open_at-IsCounted p o _ v lp lo free refl refl c)
    ]

-- The look-up changes files only.
abbrev SameOpen : Vfs → Target → Type 0
SameOpen v (Target.failure e) = Unit {0}
SameOpen v (Target.target kind node w) = (w.fd_table ≡ v.fd_table) × (w.open_files ≡ v.open_files)

truncate-same :
    (flags i : ℕ) (v : Vfs)
    → ((truncate flags i v).fd_table ≡ v.fd_table)
      × ((truncate flags i v).open_files ≡ v.open_files)
unfolding truncate
truncate-same flags i v =
    if-cases (λ (w : Vfs). (w.fd_table ≡ v.fd_table) × (w.open_files ≡ v.open_files))
      (truncates flags) _ _ (λ t. (refl, refl)) λ t. (refl, refl)

open_tmp-same : (path : List ℕ) (flags : ℕ) (v : Vfs) → SameOpen v (open_tmp path flags v)
unfolding open_tmp create_file
open_tmp-same path flags v = elim (Option-cases (tmp_file_by_path path v)) [
  | inr (i, e) ↦ rw (open_tmp, e) (truncate-same flags i v)
  | inl new ↦ elim (Option-cases (free_file max_files 0 v)) [
    | inl full ↦ rw (open_tmp, new, full) tt
    | inr (i, e) ↦
        rw (open_tmp, new, e)
          (if-cases (SameOpen v) (creates flags) _ _
            (λ t. truncate-same flags i (create_file i path v)) λ t. tt)
  ]
]

find_target-same :
    (id : FsId) (relative path : List ℕ) (flags : ℕ) (v : Vfs)
    → SameOpen v (find_target id relative path flags v)
unfolding find_target
find_target-same FsId.tmp relative path flags v =
    if-cases (SameOpen v) (path_component_valid relative) _ _ (λ t. open_tmp-same path flags v)
      λ t. tt
find_target-same FsId.dev relative path flags v =
    elim (Option-cases (virtual_node FsId.dev relative)) [
      | inl nothing ↦ rw (find_target, nothing) tt
      | inr (kind, e) ↦ rw (find_target, e) (refl, refl)
    ]
find_target-same FsId.proc relative path flags v =
    elim (Option-cases (virtual_node FsId.proc relative)) [
      | inl nothing ↦ rw (find_target, nothing) tt
      | inr (kind, e) ↦ rw (find_target, e) (refl, refl)
    ]
find_target-same FsId.apps relative path flags v =
    elim (Option-cases (virtual_node FsId.apps relative)) [
      | inl nothing ↦ rw (find_target, nothing) tt
      | inr (kind, e) ↦ rw (find_target, e) (refl, refl)
    ]

open_target-IsCounted :
    (p pid flags : ℕ) (r : Target) (v : Vfs)
    → p < max_processes
    → SameOpen v r
    → IsCounted v
    → IsCounted (open_target p pid flags r v).1
unfolding open_target
open_target-IsCounted p pid flags (Target.failure e) v lp s c = c
open_target-IsCounted p pid flags (Target.target kind node w) v lp s c =
    open_node-IsCounted p pid kind node flags (record w { vfs_resolves = inc32 w.vfs_resolves }) lp
      (rw (s.0, s.1) c)

open_path-IsCounted :
    (p pid : ℕ) (path : List ℕ) (flags : ℕ) (v : Vfs)
    → p < max_processes
    → IsCounted v
    → IsCounted (open_path p pid path flags v).1
unfolding open_path
open_path-IsCounted p pid path flags v lp c = elim (Option-cases (vfs_resolve_mount path)) [
  | inl nowhere ↦ rw (open_path, nowhere) c
  | inr ((id, relative), e) ↦
      rw (open_path, e)
        (open_target-IsCounted p pid flags (find_target id relative path flags v) v lp
          (find_target-same id relative path flags v) c)
]

pub kobj_vfs_open-IsCounted :
    (k : Kobj) (pid : ℕ) (path : Option (List ℕ)) (flags : ℕ) (v : Vfs)
    → IsCounted v
    → IsCounted (kobj_vfs_open k pid path flags v).1
unfolding kobj_vfs_open
kobj_vfs_open-IsCounted k pid none flags v c = c
kobj_vfs_open-IsCounted k pid (some path) flags v c = elim (Option-cases (process_by_pid pid k)) [
  | inl nobody ↦ rw (kobj_vfs_open, nobody) c
  | inr (p, e) ↦
      rw (kobj_vfs_open, e)
        (if-cases (λ (w : ℕ × Vfs). IsCounted w.1) (is_absolute path) _ _
          (λ t. open_path-IsCounted p pid path flags v (process_by_pid-lt pid k p e) c) λ t. c)
]
