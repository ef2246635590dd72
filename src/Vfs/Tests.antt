-- ===== src/Vfs/Tests.antt =====
-- Descriptors and paths (src/kernel/halaos_objects.c) at concrete calls.
use halaos_stm32f103_hardwar.Prelude.{
  ℕ, ◌+◌, ◌-◌, ◌<◌, ◌≤◌, ◌⊎◌, min, arith, ◌≡◌, refl, true, not, none, some, List, [], ◌∷◌, ltb,
  ◌==◌,
}
use halaos_stm32f103_hardwar.Samples.{sample}
use halaos_stm32f103_hardwar.Ipc.{Kobj, max_processes, process_by_pid, find_process, zero_object}
use halaos_stm32f103_hardwar.Vfs.{
  Node, file_data, Vfs, max_fd, max_open_files, kobj_vfs_close, kobj_vfs_dup2, fd_slot, free_fd,
  allocate_fd, release, close_fd, close_slot, link_fd, dup_slot, dup2_slot,
}
use halaos_stm32f103_hardwar.Vfs.Path.{
  FsId, vfs_resolve_mount, mount_loop, str_starts, str_eq, behind, at_boundary, skip_slash,
  is_absolute, path_component_valid, all_path_chars,
}
use halaos_stm32f103_hardwar.Vfs.Open.{
  kobj_vfs_open, open_path, open_target, open_node, open_at, opened, find_target, free_open,
  open_tmp, tmp_file_by_path, find_file, free_file, create_file, truncate, take,
}
use halaos_stm32f103_hardwar.Vfs.Count.{references}
use halaos_stm32f103_hardwar.Vfs.Data.{bytes, write_node, read_node}
use halaos_stm32f103_hardwar.Vfs.Readback.{read_node-write_node}
use halaos_stm32f103_hardwar.Vfs.Steps.{VfsStep, VfsReach, vfs_init, VfsReach-counts}

-- Processes 1 to 6.
abbrev six_processes : Kobj
six_processes = record {
  sched = sample;
  processes = λ i. record { pid = i + 1; free = ltb 5 i; ipc_count = 0 };
  objects = λ i. zero_object;
  frames = λ a. 0;
  memory = λ a. 0;
  ipc_operations = 0;
  ipc_objects_live = 0;
  ipc_timeouts = 0;
  ipc_wakeups = 0;
  wait_ops = 0;
}

resolves :
    (vfs_resolve_mount (47 ∷ 100 ∷ 101 ∷ 118 ∷ 47 ∷ 110 ∷ 117 ∷ 108 ∷ 108 ∷ [])
      ≡ some (FsId.dev, 110 ∷ 117 ∷ 108 ∷ 108 ∷ []))
    × (vfs_resolve_mount (47 ∷ 116 ∷ 109 ∷ 112 ∷ 120 ∷ []) ≡ none)
    × (vfs_resolve_mount (47 ∷ 116 ∷ 109 ∷ 112 ∷ []) ≡ some (FsId.tmp, []))
unfolding vfs_resolve_mount mount_loop str_starts behind at_boundary skip_slash is_absolute
resolves = (refl, refl, refl)

abbrev tmp_a : List ℕ
tmp_a = 47 ∷ 116 ∷ 109 ∷ 112 ∷ 47 ∷ 97 ∷ []

-- Process 2 creates /tmp/a.
abbrev after_open : Vfs
after_open = (kobj_vfs_open six_processes 2 (some tmp_a) 1 vfs_init).1

opens : (kobj_vfs_open six_processes 2 (some tmp_a) 1 vfs_init).0 ≡ 3
unfolding kobj_vfs_open process_by_pid find_process open_path vfs_resolve_mount mount_loop
    str_starts behind at_boundary skip_slash is_absolute open_target find_target
    path_component_valid all_path_chars open_tmp tmp_file_by_path find_file free_file create_file
    truncate take str_eq open_node free_open open_at opened allocate_fd free_fd
opens = refl

-- Then it duplicates the descriptor to 1, and closes the first one.
abbrev after_close : Vfs
after_close = (kobj_vfs_close six_processes 2 3 (kobj_vfs_dup2 six_processes 2 3 1 after_open).1).1

one_reference : (after_close.open_files 0).refs ≡ 1
unfolding kobj_vfs_open process_by_pid find_process open_path vfs_resolve_mount mount_loop
    str_starts behind at_boundary skip_slash is_absolute open_target find_target
    path_component_valid all_path_chars open_tmp tmp_file_by_path find_file free_file create_file
    truncate take str_eq open_node free_open open_at opened allocate_fd free_fd kobj_vfs_close
    kobj_vfs_dup2 close_slot close_fd release dup2_slot dup_slot link_fd fd_slot
one_reference = refl

VfsReach-counts_example :
    ((o : ℕ)
      → o < max_open_files
      → (after_close.open_files o).refs ≡ references after_close.fd_table o)
    × ((o : ℕ)
        → o < max_open_files
        → (after_close.open_files o).used ≡ not (references after_close.fd_table o == 0))
    × ((p fd o : ℕ)
        → p < max_processes
        → fd < max_fd
        → after_close.fd_table p fd ≡ some o
        → (o < max_open_files) × ((after_close.open_files o).used ≡ true))
VfsReach-counts_example = VfsReach-counts after_close (
    VfsReach.next
      (VfsReach.next
        (VfsReach.next VfsReach.start (VfsStep.open_call six_processes 2 (some tmp_a) 1))
        (VfsStep.dup2_call six_processes 2 3 1))
      (VfsStep.close_call six_processes 2 3))

-- Two open files of one file of 90 bytes, both at its end.
abbrev at_end : Vfs
at_end = record vfs_init {
  open_files = λ o. record {
    used = true;
    kind = Node.tmp;
    node = 0;
    flags = 0;
    refs = 1;
    offset = 90;
    owner = 2;
  };
  files = λ i. record { used = true; size = 90; path = tmp_a; content = λ x. 65 };
}

abbrev letters : ℕ → ℕ
letters i = 97 + i

-- Six of eight bytes find room.
read_node-write_node_example :
    let (n, w) = write_node Node.tmp 0 letters 8 at_end in
    let r = read_node (λ kind. (0, λ i. 0)) Node.tmp 1 n w in
    (n ≡ min 8 (file_data - 90))
    × ((r.count ≡ n) × (r.buffer ≡ bytes n letters))
    × (((w.open_files 0).offset ≡ 90 + n) × ((w.files 0).size ≤ file_data))
    × ((j : ℕ) → (j < 90) ⊎ (90 + n ≤ j) → (w.files 0).content j ≡ 65)
read_node-write_node_example =
    read_node-write_node (λ kind. (0, λ i. 0)) 0 1 8 letters at_end refl refl refl (omega arith)
      (omega arith)
