-- ===== src/Vfs/Data.antt =====
-- kobj_vfs_write and kobj_vfs_read of src/kernel/halaos_objects.c.
use halaos_stm32f103_hardwar.Prelude.{
  ℕ, zero, suc, ◌+◌, ◌-◌, ◌%◌, Bool, true, false, ◌&&◌, Option, none, some, List, [], ◌∷◌, ◌++◌,
  ◌==◌, ltb, leb, if◌then◌else◌, update, minus, sub32, u16_mod,
}
use halaos_stm32f103_hardwar.Ipc.{Kobj, process_by_pid}
use halaos_stm32f103_hardwar.Vfs.{Node, Vfs, file_data, set_open, fd_slot}

-- The first `n` bytes at a pointer.
unfoldable pub bytes : ℕ → (ℕ → ℕ) → List ℕ
bytes zero data_at = []
bytes (suc n) data_at = data_at 0 ∷ bytes n (λ i. data_at (i + 1))

-- mem_copy of `n` bytes to `content + at`.
abbrev pub copy_in : ℕ → ℕ → (ℕ → ℕ) → (ℕ → ℕ) → ℕ → ℕ
copy_in at n source content j = if leb at j && ltb j (at + n) then source (j - at) else content j

abbrev pub smaller : ℕ → ℕ → ℕ
smaller a b = if ltb b a then b else a

-- A write to a file of /tmp.
unfoldable pub write_tmp : ℕ → (ℕ → ℕ) → ℕ → Vfs → ℕ × Vfs
write_tmp o source length v =
    let f = v.open_files o in
    let file = v.files f.node in
    let n = smaller length (sub32 file_data f.offset) in
    let offset = (f.offset + n) % u16_mod in
    (
      n,
      record (set_open o (record f { offset = offset }) v) {
        files = update v.files f.node (record file {
          content = copy_in f.offset n source file.content;
          size = if ltb file.size offset then offset else file.size;
        });
      },
    )

unfoldable pub write_pin : (ℕ → ℕ) → ℕ → Vfs → ℕ × Vfs
write_pin source length v =
    if length == 0
    then (0, v)
    else if source 0 == 49
    then (length, record v { pin = v.pin ++ true ∷ [] })
    else if source 0 == 48
    then (length, record v { pin = v.pin ++ false ∷ [] })
    else (minus 22, v)

unfoldable pub write_console : (ℕ → ℕ) → ℕ → Vfs → ℕ × Vfs
write_console source length v = (length, record v { console = v.console ++ bytes length source })

unfoldable pub write_node : Node → ℕ → (ℕ → ℕ) → ℕ → Vfs → ℕ × Vfs
write_node Node.dev_null o source length v = (length, v)
write_node Node.dev_console o source length v = write_console source length v
write_node Node.dev_uart1 o source length v = write_console source length v
write_node Node.dev_gpio_pc13 o source length v = write_pin source length v
write_node Node.tmp o source length v = write_tmp o source length v
write_node _ o source length v = (minus 30, v)

-- `source` is `none` for NULL.
unfoldable pub kobj_vfs_write : Kobj → ℕ → ℕ → Option (ℕ → ℕ) → ℕ → Vfs → ℕ × Vfs
kobj_vfs_write k pid fd none length v = (minus 9, v)
kobj_vfs_write k pid fd (some source) length v = elim (fd_slot (process_by_pid pid k) fd v) [
  | none ↦ (minus 9, v)
  | some o ↦ write_node (v.open_files o).kind o source length v
]

-- What a read returns: the count, the bytes that it has written to the caller's buffer, and the
-- state.
pub record Reading : Type 0 where
  pub count : ℕ
  pub buffer : List ℕ
  pub state : Vfs

-- A read of a text of `size` bytes from the offset on.
unfoldable pub read_text : ℕ → ℕ → (ℕ → ℕ) → ℕ → Vfs → Reading
read_text o size text length v =
    let f = v.open_files o in
    let left = if ltb f.offset size then size - f.offset else 0 in
    let n = smaller length left in
    record {
      count = n;
      buffer = bytes n (λ i. text (f.offset + i));
      state = set_open o (record f { offset = (f.offset + n) % u16_mod }) v;
    }

unfoldable pub read_zero : ℕ → ℕ → Vfs → Reading
read_zero o length v =
    let f = v.open_files o in
    record {
      count = length;
      buffer = bytes length (λ i. 0);
      state = set_open o (record f { offset = (f.offset + length) % u16_mod }) v;
    }

-- `texts` is what virtual_content composes for a node: the size of the text, and its bytes.
module _ (texts : Node → ℕ × (ℕ → ℕ)) where
  unfoldable pub read_node : Node → ℕ → ℕ → Vfs → Reading
  read_node Node.dev_null o length v = record { count = 0; buffer = []; state = v }
  read_node Node.dev_zero o length v = read_zero o length v
  read_node Node.tmp o length v =
      let file = v.files (v.open_files o).node in read_text o file.size file.content length v
  read_node kind o length v = read_text o (texts kind).0 (texts kind).1 length v

  -- `wanted` tells whether the buffer is not NULL.
  unfoldable pub kobj_vfs_read : Kobj → ℕ → ℕ → Bool → ℕ → Vfs → Reading
  kobj_vfs_read k pid fd false length v = record { count = minus 9; buffer = []; state = v }
  kobj_vfs_read k pid fd true length v = elim (fd_slot (process_by_pid pid k) fd v) [
    | none ↦ record { count = minus 9; buffer = []; state = v }
    | some o ↦ read_node (v.open_files o).kind o length v
  ]
