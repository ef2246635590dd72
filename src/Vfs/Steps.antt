-- ===== src/Vfs/Steps.antt =====
-- The descriptors of all processes (src/kernel/halaos_objects.c), over any sequence of calls.
use halaos_stm32f103_hardwar.Prelude.{
  ℕ, ◌<◌, ◌≡◌, refl, sym, ap, ◌∙◌, true, false, not, Option, none, some, List, [], ◌==◌, arith,
}
use halaos_stm32f103_hardwar.Ipc.{Kobj, max_processes}
use halaos_stm32f103_hardwar.Vfs.{
  Vfs, max_open_files, max_fd, unused_open, fd_release_owned, kobj_vfs_close, kobj_vfs_dup2,
}
use halaos_stm32f103_hardwar.Vfs.Open.{kobj_vfs_open}
use halaos_stm32f103_hardwar.Vfs.Count.{references, references_empty}
use halaos_stm32f103_hardwar.Vfs.Refs.{IsCounted}
use halaos_stm32f103_hardwar.Vfs.Dup.{
  fd_release_owned-IsCounted, kobj_vfs_close-IsCounted, kobj_vfs_dup2-IsCounted,
}
use halaos_stm32f103_hardwar.Vfs.Close.{entry-used}
use halaos_stm32f103_hardwar.Vfs.Opened.{kobj_vfs_open-IsCounted}

-- g_vfs_files, g_open_files and g_fd_table as hala_objects_init leaves them.
abbrev pub vfs_init : Vfs
vfs_init = record {
  fd_table = λ p fd. none;
  open_files = λ o. unused_open;
  files = λ i. record { used = false; size = 0; path = []; content = λ x. 0 };
  fd_count = λ p. 0;
  vfs_open_count = 0;
  vfs_file_count = 0;
  vfs_resolves = 0;
  fd_open_count = 0;
  fd_close_count = 0;
  console = [];
  pin = [];
}

-- A call, by any process in any state of the process table, or the end of process `p`.
pub data VfsStep : Vfs → Vfs → Type 0 where
  open_call :
      {v : Vfs} (k : Kobj) (pid : ℕ) (path : Option (List ℕ)) (flags : ℕ)
      → VfsStep v (kobj_vfs_open k pid path flags v).1
  close_call : {v : Vfs} (k : Kobj) (pid fd : ℕ) → VfsStep v (kobj_vfs_close k pid fd v).1
  dup2_call :
      {v : Vfs} (k : Kobj) (pid oldfd newfd : ℕ) → VfsStep v (kobj_vfs_dup2 k pid oldfd newfd v).1
  process_end : {v : Vfs} (p : ℕ) → p < max_processes → VfsStep v (fd_release_owned p v)

pub data VfsReach : Vfs → Type 0 where
  start : VfsReach vfs_init
  next : {v w : Vfs} → VfsReach v → VfsStep v w → VfsReach w

step-IsCounted : {v w : Vfs} → VfsStep v w → IsCounted v → IsCounted w
step-IsCounted {v} (VfsStep.open_call k pid path flags) c =
    kobj_vfs_open-IsCounted k pid path flags v c
step-IsCounted {v} (VfsStep.close_call k pid fd) c = kobj_vfs_close-IsCounted k pid fd v c
step-IsCounted {v} (VfsStep.dup2_call k pid oldfd newfd) c =
    kobj_vfs_dup2-IsCounted k pid oldfd newfd v c
step-IsCounted {v} (VfsStep.process_end p lp) c = fd_release_owned-IsCounted p v lp c

start-IsCounted : IsCounted vfs_init
start-IsCounted = record {
  refs = λ o lt. sym (references_empty o);
  used = λ o lt. refl;
  inside = λ p fd o e. absurd (ground arith);
}

reach-IsCounted : {v : Vfs} → VfsReach v → IsCounted v
reach-IsCounted VfsReach.start = start-IsCounted
reach-IsCounted (VfsReach.next r s) = step-IsCounted s (reach-IsCounted r)

-- After any sequence of kobj_vfs_open, kobj_vfs_close and kobj_vfs_dup2 by any processes, and of
-- the ends of processes (fd_release_owned), from the state that hala_objects_init leaves: the
-- reference count of every open file is the number of descriptors that refer to it, it is used if
-- there is one and free if there is none, and every descriptor refers to an open file that is
-- used.
pub VfsReach-counts :
    (v : Vfs)
    → VfsReach v
    → ((o : ℕ) → o < max_open_files → (v.open_files o).refs ≡ references v.fd_table o)
      × ((o : ℕ) → o < max_open_files → (v.open_files o).used ≡ not (references v.fd_table o == 0))
      × ((p fd o : ℕ)
          → p < max_processes
          → fd < max_fd
          → v.fd_table p fd ≡ some o
          → (o < max_open_files) × ((v.open_files o).used ≡ true))
VfsReach-counts v r =
    let c = reach-IsCounted r in
    (
      c.refs,
      (λ o lt. c.used o lt ∙ ap (λ n. not (n == 0)) (c.refs o lt)),
      λ p fd o lp lf e. (c.inside p fd o e, entry-used p fd o v lp lf e c),
    )
