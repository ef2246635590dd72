-- ===== src/Vfs/Open.antt =====
-- kobj_vfs_open of src/kernel/halaos_objects.c, with tmp_file_by_path.
use halaos_stm32f103_hardwar.Prelude.{
  ℕ, zero, suc, ◌+◌, ◌/◌, ◌%◌, Bool, true, ◌&&◌, Option, none, some, List, [], ◌∷◌, ◌==◌,
  if◌then◌else◌, update, minus, inc32,
}
use halaos_stm32f103_hardwar.Ipc.{Kobj, process_by_pid}
use halaos_stm32f103_hardwar.Vfs.{
  Node, OpenFile, VfsFile, Vfs, max_open_files, max_files, unused_open, set_open, allocate_fd,
}
use halaos_stm32f103_hardwar.Vfs.Path.{
  FsId, is_absolute, str_eq, vfs_resolve_mount, path_component_valid, virtual_node,
}

-- tmp_file_by_path, from file `i` on, `left` of them.
unfoldable pub find_file : ℕ → ℕ → List ℕ → Vfs → Option ℕ
find_file zero i path v = none
find_file (suc left) i path v =
    let rest = find_file left (i + 1) path v in
    if (v.files i).used && str_eq (v.files i).path path then some i else rest

unfoldable pub tmp_file_by_path : List ℕ → Vfs → Option ℕ
tmp_file_by_path path v = find_file max_files 0 path v

unfoldable pub free_file : ℕ → ℕ → Vfs → Option ℕ
free_file zero i v = none
free_file (suc left) i v =
    let rest = free_file left (i + 1) v in if (v.files i).used then rest else some i

-- copy_small into the 16 bytes of a path.
unfoldable pub take : ℕ → List ℕ → List ℕ
take zero s = []
take (suc n) [] = []
take (suc n) (c ∷ s) = c ∷ take n s

abbrev pub set_file : ℕ → VfsFile → Vfs → Vfs
set_file i f v = record v { files = update v.files i f }

unfoldable pub create_file : ℕ → List ℕ → Vfs → Vfs
create_file i path v =
    record (set_file i (record { used = true; size = 0; path = take 15 path; content = λ x. 0 })
      v) { vfs_file_count = inc32 v.vfs_file_count }

-- HOS_O_CREAT and HOS_O_TRUNC.
abbrev pub creates : ℕ → Bool
creates flags = flags % 2 == 1

abbrev pub truncates : ℕ → Bool
truncates flags = flags / 2 % 2 == 1

unfoldable pub truncate : ℕ → ℕ → Vfs → Vfs
truncate flags i v = if truncates flags then set_file i (record (v.files i) { size = 0 }) v else v

-- What the path names: an error, or a kind of node with its number.
pub data Target : Type 0 where
  failure : ℕ → Target
  target : Node → ℕ → Vfs → Target

unfoldable pub open_tmp : List ℕ → ℕ → Vfs → Target
open_tmp path flags v = elim (tmp_file_by_path path v) [
  | some i ↦ Target.target Node.tmp i (truncate flags i v)
  | none ↦ elim (free_file max_files 0 v) [
    | none ↦ Target.failure (if creates flags then minus 28 else minus 2)
    | some i ↦
        if creates flags
        then Target.target Node.tmp i (truncate flags i (create_file i path v))
        else Target.failure (minus 2)
  ]
]

unfoldable pub find_target : FsId → List ℕ → List ℕ → ℕ → Vfs → Target
find_target FsId.tmp relative path flags v =
    if path_component_valid relative then open_tmp path flags v else Target.failure (minus 22)
find_target id relative path flags v = elim (virtual_node id relative) [
  | none ↦ Target.failure (minus 2)
  | some kind ↦ Target.target kind 0 v
]

-- The first unused open file from `o` on, of `left` of them.
unfoldable pub free_open : ℕ → ℕ → Vfs → Option ℕ
free_open zero o v = none
free_open (suc left) o v =
    let rest = free_open left (o + 1) v in if (v.open_files o).used then rest else some o

-- What follows allocate_fd: without a descriptor the open file is given up.
unfoldable pub opened : ℕ → Option ℕ × Vfs → ℕ × Vfs
opened o (none, v) = (minus 24, set_open o unused_open v)
opened o (some fd, v) = (
  fd,
  record v { vfs_open_count = inc32 v.vfs_open_count; fd_open_count = inc32 v.fd_open_count },
)

-- The loop at the end of kobj_vfs_open, on the open file that it finds.
unfoldable pub open_at : ℕ → ℕ → OpenFile → Vfs → ℕ × Vfs
open_at p o f v = opened o (allocate_fd p o (set_open o f v))

unfoldable pub open_node : ℕ → ℕ → Node → ℕ → ℕ → Vfs → ℕ × Vfs
open_node p pid kind node flags v = elim (free_open max_open_files 0 v) [
  | none ↦ (minus 24, v)
  | some o ↦
      open_at p o
        (record {
          used = true;
          kind = kind;
          node = node;
          flags = flags % 256;
          refs = 1;
          offset = 0;
          owner = pid;
        })
        v
]

unfoldable pub open_target : ℕ → ℕ → ℕ → Target → Vfs → ℕ × Vfs
open_target p pid flags (Target.failure e) v = (e, v)
open_target p pid flags (Target.target kind node w) v =
    open_node p pid kind node flags (record w { vfs_resolves = inc32 w.vfs_resolves })

unfoldable pub open_path : ℕ → ℕ → List ℕ → ℕ → Vfs → ℕ × Vfs
open_path p pid path flags v = elim (vfs_resolve_mount path) [
  | none ↦ (minus 2, v)
  | some (id, relative) ↦ open_target p pid flags (find_target id relative path flags v) v
]

-- `path` is `none` for NULL.
unfoldable pub kobj_vfs_open : Kobj → ℕ → Option (List ℕ) → ℕ → Vfs → ℕ × Vfs
kobj_vfs_open k pid none flags v = (minus 22, v)
kobj_vfs_open k pid (some path) flags v = elim (process_by_pid pid k) [
  | none ↦ (minus 22, v)
  | some p ↦ if is_absolute path then open_path p pid path flags v else (minus 22, v)
]
