-- ===== src/Vfs.antt =====
-- Open files and their descriptors: fd_slot, allocate_fd, fd_release_owned, kobj_vfs_close and
-- kobj_vfs_dup2 of src/kernel/halaos_objects.c.
pub mod Close
pub mod Count
pub mod Data
pub mod Dup
pub mod Linked
pub mod Open
pub mod Opened
pub mod Path
pub mod Readback
pub mod Refs
pub mod Steps
mod Tests
use halaos_stm32f103_hardwar.Prelude.{
  ℕ, zero, suc, ◌+◌, ◌-◌, ◌%◌, Bool, true, false, not, ◌&&◌, ◌||◌, Option, none, some, List, [],
  ◌==◌, ltb, leb, if◌then◌else◌, update, minus, inc32, u8_mod,
}
use halaos_stm32f103_hardwar.Ipc.{Kobj, max_processes, process_by_pid}

abbrev pub max_open_files : ℕ
max_open_files = 8

abbrev pub max_fd : ℕ
max_fd = 6

abbrev pub max_files : ℕ
max_files = 4

abbrev pub file_data : ℕ
file_data = 96

-- HOS_NODE_*, and the 0 of an open file that is not used.
pub data Node : Type 0 where
  no_node tmp dev_null dev_zero dev_console dev_uart1 dev_gpio_pc13 : Node
  proc_version proc_uptime proc_meminfo proc_bootinfo proc_processes proc_schedstat : Node
  proc_interrupts proc_ipc proc_dtb apps_active : Node

pub record OpenFile : Type 0 where
  pub used : Bool
  pub kind : Node
  pub node : ℕ
  pub flags : ℕ
  pub refs : ℕ
  pub offset : ℕ
  pub owner : ℕ

-- The path is the list of its characters before the NUL.
pub record VfsFile : Type 0 where
  pub used : Bool
  pub size : ℕ
  pub path : List ℕ
  pub content : ℕ → ℕ

-- g_fd_table, with `none` for -1; `fd_count` is the field of the processes. `console` holds what
-- uart_putc_priv has been given, and `pin` what PC13 has been set to.
pub record Vfs : Type 0 where
  pub fd_table : ℕ → ℕ → Option ℕ
  pub open_files : ℕ → OpenFile
  pub files : ℕ → VfsFile
  pub fd_count : ℕ → ℕ
  pub vfs_open_count : ℕ
  pub vfs_file_count : ℕ
  pub vfs_resolves : ℕ
  pub fd_open_count : ℕ
  pub fd_close_count : ℕ
  pub console : List ℕ
  pub pin : List Bool

abbrev pub unused_open : OpenFile
unused_open = record {
  used = false;
  kind = Node.no_node;
  node = 0;
  flags = 0;
  refs = 0;
  offset = 0;
  owner = 0;
}

abbrev pub set_fd : ℕ → ℕ → Option ℕ → Vfs → Vfs
set_fd p fd x v = record v { fd_table = update v.fd_table p (update (v.fd_table p) fd x) }

abbrev pub set_open : ℕ → OpenFile → Vfs → Vfs
set_open o f v = record v { open_files = update v.open_files o f }

abbrev pub lower : ℕ → ℕ
lower n = if n == 0 then n else n - 1

-- The descriptor, an i32, is the u32 of the same bits, so that a negative one is not below max_fd.
unfoldable pub fd_slot : Option ℕ → ℕ → Vfs → Option ℕ
fd_slot none fd v = none
fd_slot (some p) fd v = if leb max_fd fd then none else v.fd_table p fd

-- The first free descriptor from `fd` on, of `left` of them.
pub free_fd : ℕ → ℕ → ℕ → Vfs → Option ℕ
free_fd zero fd p v = none
free_fd (suc left) fd p v =
    let rest = free_fd left (fd + 1) p v in
    elim (v.fd_table p fd) [ none ↦ some fd | some o ↦ rest ]

-- The descriptor, or -24.
unfoldable pub allocate_fd : ℕ → ℕ → Vfs → Option ℕ × Vfs
allocate_fd p o v = elim (free_fd 3 3 p v) [
  | none ↦ (none, v)
  | some fd ↦ (
    some fd,
    record (set_fd p fd (some o) v) {
      fd_count = update v.fd_count p ((v.fd_count p + 1) % u8_mod);
    },
  )
]

-- A descriptor less of open file `o`; the last one frees it.
unfoldable pub release : ℕ → Vfs → Vfs
release o v =
    let f = v.open_files o in
    let refs = lower f.refs in
    if refs == 0
    then record (set_open o unused_open v) { vfs_open_count = lower v.vfs_open_count }
    else set_open o (record f { refs = refs }) v

-- The part of kobj_vfs_close behind its tests.
unfoldable pub close_fd : ℕ → ℕ → ℕ → Vfs → Vfs
close_fd p fd o v =
    let v₁ = record (set_fd p fd none v) {
      fd_count = update v.fd_count p (lower (v.fd_count p));
    } in
    let v₂ = release o v₁ in record v₂ { fd_close_count = inc32 v₂.fd_close_count }

-- A round of the loop of fd_release_owned.
unfoldable pub release_fd : ℕ → ℕ → Vfs → Vfs
release_fd p fd v = elim (v.fd_table p fd) [
  | none ↦ set_fd p fd none v
  | some o ↦
      let v' = release o v in
      if ltb o max_open_files && (v.open_files o).used
      then set_fd p fd none (record v' { fd_close_count = inc32 v'.fd_close_count })
      else set_fd p fd none v
]

pub release_loop : ℕ → ℕ → ℕ → Vfs → Vfs
release_loop zero fd p v = v
release_loop (suc left) fd p v = release_loop left (fd + 1) p (release_fd p fd v)

unfoldable pub fd_release_owned : ℕ → Vfs → Vfs
fd_release_owned p v =
    let v' = release_loop max_fd 0 p v in record v' { fd_count = update v'.fd_count p 0 }

-- `p` is process_by_pid of the caller.
unfoldable pub close_slot : Option ℕ → ℕ → Vfs → ℕ × Vfs
close_slot none fd v = (minus 9, v)
close_slot (some p) fd v = elim (fd_slot (some p) fd v) [
  | none ↦ (minus 9, v)
  | some o ↦
      if leb max_open_files o || not (v.open_files o).used
      then (minus 9, v)
      else (0, close_fd p fd o v)
]

-- One descriptor more of open file `o`, at the end of kobj_vfs_dup2.
unfoldable pub link_fd : ℕ → ℕ → ℕ → Vfs → Vfs
link_fd p fd o v =
    let v₁ = set_fd p fd (some o) v in
    let f = v₁.open_files o in
    record (set_open o (record f { refs = (f.refs + 1) % u8_mod }) v₁) {
      fd_count = update v.fd_count p ((v.fd_count p + 1) % u8_mod);
      fd_open_count = inc32 v.fd_open_count;
    }

-- kobj_vfs_dup2 on a `newfd` in range, behind the test that the descriptors differ.
unfoldable pub dup_slot : ℕ → ℕ → ℕ → Vfs → ℕ × Vfs
dup_slot p o newfd v = elim (v.fd_table p newfd) [
  | none ↦ (newfd, link_fd p newfd o v)
  | some old ↦
      let (result, v') = close_slot (some p) newfd v in
      if result == 0 then (newfd, link_fd p newfd o v') else (result, v')
]

unfoldable pub dup2_slot : Option ℕ → ℕ → ℕ → Vfs → ℕ × Vfs
dup2_slot none oldfd newfd v = (minus 9, v)
dup2_slot (some p) oldfd newfd v = elim (fd_slot (some p) oldfd v) [
  | none ↦ (minus 9, v)
  | some o ↦
      if leb max_fd newfd
      then (minus 9, v)
      else if oldfd == newfd
      then (newfd, v)
      else dup_slot p o newfd v
]

unfoldable pub kobj_vfs_close : Kobj → ℕ → ℕ → Vfs → ℕ × Vfs
kobj_vfs_close k pid fd v = close_slot (process_by_pid pid k) fd v

unfoldable pub kobj_vfs_dup2 : Kobj → ℕ → ℕ → ℕ → Vfs → ℕ × Vfs
kobj_vfs_dup2 k pid oldfd newfd v = dup2_slot (process_by_pid pid k) oldfd newfd v
