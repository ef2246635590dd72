-- ===== src/Vfs/Path.antt =====
-- Paths of the virtual file system: str_starts of src/boot/halaos_boot.c, and path_component_valid,
-- tmp_name_valid, vfs_resolve_mount and virtual_node of src/kernel/halaos_objects.c. A path is the
-- list of its characters before the NUL.
use halaos_stm32f103_hardwar.Prelude.{
  ℕ, zero, suc, Bool, true, false, ◌&&◌, ◌||◌, Option, none, some, List, [], ◌∷◌, ◌==◌, ltb, leb,
  if◌then◌else◌, length,
}
use halaos_stm32f103_hardwar.Boundary.{is_name_char}
use halaos_stm32f103_hardwar.Vfs.{Node}

unfoldable pub str_eq : List ℕ → List ℕ → Bool
str_eq [] [] = true
str_eq [] (b ∷ t) = false
str_eq (a ∷ s) [] = false
str_eq (a ∷ s) (b ∷ t) = let rest = str_eq s t in if a == b then rest else false

unfoldable pub str_starts : List ℕ → List ℕ → Bool
str_starts s [] = true
str_starts [] (b ∷ t) = false
str_starts (a ∷ s) (b ∷ t) = let rest = str_starts s t in if a == b then rest else false

unfoldable pub behind : ℕ → List ℕ → List ℕ
behind zero s = s
behind (suc n) [] = []
behind (suc n) (c ∷ s) = behind n s

-- `'/'`
abbrev pub slash : ℕ
slash = 47

-- HOS_FS_*
pub data FsId : Type 0 where
  dev proc tmp apps : FsId

-- A mount point: its path and its file system.
abbrev pub Mount : Type 0
Mount = List ℕ × FsId

abbrev pub mounts : List Mount
mounts =
    (47 ∷ 100 ∷ 101 ∷ 118 ∷ [], FsId.dev)
    ∷ (47 ∷ 112 ∷ 114 ∷ 111 ∷ 99 ∷ [], FsId.proc)
    ∷ (47 ∷ 116 ∷ 109 ∷ 112 ∷ [], FsId.tmp)
    ∷ (47 ∷ 97 ∷ 112 ∷ 112 ∷ 115 ∷ [], FsId.apps)
    ∷ []

-- The path ends behind the mount point, or goes on with a slash.
unfoldable pub at_boundary : List ℕ → Bool
at_boundary [] = true
at_boundary (c ∷ s) = c == slash

-- The loop of vfs_resolve_mount, from the best mount so far on, with its length.
unfoldable pub mount_loop : List ℕ → List Mount → Option (FsId × ℕ) → Option (FsId × ℕ)
mount_loop path [] best = best
mount_loop path ((point, id) ∷ rest) best =
    let n = length point in
    let best_length : ℕ = elim best [ none ↦ 0 | some (i, m) ↦ m ] in
    let better =
      if str_starts path point && (at_boundary (behind n path) && ltb best_length n)
      then some (id, n)
      else best in
    mount_loop path rest better

unfoldable pub skip_slash : List ℕ → List ℕ
skip_slash [] = []
skip_slash (c ∷ s) = if c == slash then s else c ∷ s

-- `path[0] == '/'`
unfoldable pub is_absolute : List ℕ → Bool
is_absolute [] = false
is_absolute (c ∷ s) = c == slash

-- The file system and the relative path.
unfoldable pub vfs_resolve_mount : List ℕ → Option (FsId × List ℕ)
vfs_resolve_mount path =
    if is_absolute path
    then elim (mount_loop path mounts none) [
      | none ↦ none
      | some (id, n) ↦ some (id, skip_slash (behind n path))
    ]
    else none

unfoldable pub all_path_chars : List ℕ → Bool
all_path_chars [] = true
all_path_chars (c ∷ s) =
    let rest = all_path_chars s in if is_name_char c || (c == 46) then rest else false

unfoldable pub path_component_valid : List ℕ → Bool
path_component_valid s = if (length s == 0) || leb 11 (length s) then false else all_path_chars s

unfoldable pub dev_node : List ℕ → Option Node
dev_node s =
    if str_eq s (110 ∷ 117 ∷ 108 ∷ 108 ∷ [])
    then some Node.dev_null
    else if str_eq s (122 ∷ 101 ∷ 114 ∷ 111 ∷ [])
    then some Node.dev_zero
    else if str_eq s (99 ∷ 111 ∷ 110 ∷ 115 ∷ 111 ∷ 108 ∷ 101 ∷ [])
    then some Node.dev_console
    else if str_eq s (117 ∷ 97 ∷ 114 ∷ 116 ∷ 49 ∷ [])
    then some Node.dev_uart1
    else if str_eq s (103 ∷ 112 ∷ 105 ∷ 111 ∷ 47 ∷ 80 ∷ 67 ∷ 49 ∷ 51 ∷ [])
    then some Node.dev_gpio_pc13
    else none

unfoldable pub proc_node : List ℕ → Option Node
proc_node s =
    if str_eq s (118 ∷ 101 ∷ 114 ∷ 115 ∷ 105 ∷ 111 ∷ 110 ∷ [])
    then some Node.proc_version
    else if str_eq s (117 ∷ 112 ∷ 116 ∷ 105 ∷ 109 ∷ 101 ∷ [])
    then some Node.proc_uptime
    else if str_eq s (109 ∷ 101 ∷ 109 ∷ 105 ∷ 110 ∷ 102 ∷ 111 ∷ [])
    then some Node.proc_meminfo
    else if str_eq s (98 ∷ 111 ∷ 111 ∷ 116 ∷ 105 ∷ 110 ∷ 102 ∷ 111 ∷ [])
    then some Node.proc_bootinfo
    else if str_eq s (112 ∷ 114 ∷ 111 ∷ 99 ∷ 101 ∷ 115 ∷ 115 ∷ 101 ∷ 115 ∷ [])
    then some Node.proc_processes
    else if str_eq s (115 ∷ 99 ∷ 104 ∷ 101 ∷ 100 ∷ 115 ∷ 116 ∷ 97 ∷ 116 ∷ [])
    then some Node.proc_schedstat
    else if str_eq s (105 ∷ 110 ∷ 116 ∷ 101 ∷ 114 ∷ 114 ∷ 117 ∷ 112 ∷ 116 ∷ 115 ∷ [])
    then some Node.proc_interrupts
    else if str_eq s (105 ∷ 112 ∷ 99 ∷ [])
    then some Node.proc_ipc
    else if str_eq s (100 ∷ 116 ∷ 98 ∷ [])
    then some Node.proc_dtb
    else none

unfoldable pub apps_node : List ℕ → Option Node
apps_node s =
    if str_eq s (97 ∷ 99 ∷ 116 ∷ 105 ∷ 118 ∷ 101 ∷ []) then some Node.apps_active else none

unfoldable pub virtual_node : FsId → List ℕ → Option Node
virtual_node FsId.dev s = dev_node s
virtual_node FsId.proc s = proc_node s
virtual_node FsId.apps s = apps_node s
virtual_node FsId.tmp s = none
