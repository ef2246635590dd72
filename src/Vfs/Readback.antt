-- ===== src/Vfs/Readback.antt =====
-- Files of /tmp (src/kernel/halaos_objects.c): what is written is read back, within the file's 96
-- bytes.
use halaos_stm32f103_hardwar.Prelude.{
  ℕ, zero, suc, ◌+◌, ◌-◌, ◌%◌, ◌≤◌, ◌<◌, ◌≡◌, ◌⊎◌, refl, ap, ap₂, ◌∙◌, true, false, ◌&&◌, ◌∷◌, ◌==◌,
  ltb, leb, if◌then◌else◌, inl, inr, eqb_refl, min, arith, sub32, u16_mod,
}
use halaos_stm32f103_hardwar.Vfs.{Node, OpenFile, VfsFile, Vfs, file_data}
use halaos_stm32f103_hardwar.Vfs.Data.{
  bytes, copy_in, smaller, write_tmp, write_node, read_text, read_node,
}

bytes_ext : (n : ℕ) (f g : ℕ → ℕ) → ((i : ℕ) → i < n → f i ≡ g i) → bytes n f ≡ bytes n g
unfolding bytes
bytes_ext zero f g e = refl
bytes_ext (suc n) f g e =
    ap₂ (λ x y. x ∷ y) (e 0 (omega arith))
      (bytes_ext n (λ i. f (i + 1)) (λ i. g (i + 1)) λ i lt. e (i + 1) (omega arith))

copied :
    (at n i : ℕ) (source content : ℕ → ℕ) → i < n → copy_in at n source content (at + i) ≡ source i
copied at n i source content lt =
    let back : at + i - at ≡ i = omega arith in
    let inside : (leb at (at + i) && ltb (at + i) (at + n)) ≡ true = ground arith in
    rw (inside, back) refl

not_copied :
    (at n j : ℕ) (source content : ℕ → ℕ)
    → (j < at) ⊎ (at + n ≤ j)
    → copy_in at n source content j ≡ content j
not_copied at n j source content (inl low) = ground arith
not_copied at n j source content (inr high) = ground arith

-- For two open files of the same file of /tmp with the same offset, where the offset and the size
-- are at most 96: a write through the first takes as many bytes as asked for, or as many as are
-- left of the 96; its offset moves on by them and the size stays at most 96; a read of that many
-- through the second returns exactly the bytes that have been written; and every other byte of
-- the file is as it was.
pub read_node-write_node :
    (texts : Node → ℕ × (ℕ → ℕ)) (o q length : ℕ) (source : ℕ → ℕ) (v : Vfs)
    → (q == o) ≡ false
    → (v.open_files q).node ≡ (v.open_files o).node
    → (v.open_files q).offset ≡ (v.open_files o).offset
    → (v.open_files o).offset ≤ file_data
    → (v.files (v.open_files o).node).size ≤ file_data
    → let f = v.open_files o in
      let (n, w) = write_node Node.tmp o source length v in
      let r = read_node texts Node.tmp q n w in
      (n ≡ min length (file_data - f.offset))
      × ((r.count ≡ n) × (r.buffer ≡ bytes n source))
      × (((w.open_files o).offset ≡ f.offset + n) × ((w.files f.node).size ≤ file_data))
      × ((j : ℕ)
          → (j < f.offset) ⊎ (f.offset + n ≤ j)
          → (w.files f.node).content j ≡ (v.files f.node).content j)
unfolding write_node write_tmp read_node read_text
read_node-write_node texts o q length source v apart node offset low small =
    let f : OpenFile = v.open_files o in
    let n : ℕ = smaller length (sub32 file_data f.offset) in
    let end : ℕ = (f.offset + n) % u16_mod in
    let file : VfsFile = v.files f.node in
    let size : ℕ = if ltb file.size end then end else file.size in
    let same = eqb_refl o in
    let here = eqb_refl f.node in
    let room : n ≡ min length (file_data - f.offset) = ground arith in
    let ends : end ≡ f.offset + n = omega (arith, room) in
    let behind : f.offset + n ≤ size = ground arith in
    let all : smaller n (if ltb f.offset size then size - f.offset else 0) ≡ n = ground arith in
    let read =
      ap (λ m. bytes m (λ i. copy_in f.offset n source file.content (f.offset + i))) all
      ∙ bytes_ext n (λ i. copy_in f.offset n source file.content (f.offset + i)) source
          λ i lt. copied f.offset n i source file.content lt in
    let within : size ≤ file_data = ground arith in
    rw (apart, node, offset, same, here)
      (room, (all, read), (ends, within), λ j out. not_copied f.offset n j source file.content out)
