-- ===== src/Boundary/Name.antt =====
-- Names survive being copied into a fixed buffer of 12 bytes.
use halaos_stm32f103_hardwar.Prelude.{
  ℕ, zero, suc, ◌+◌, ◌≤◌, ◌≡◌, refl, ap, true, false, List, [], ◌∷◌, arith, ◌==◌, if◌then◌else◌,
  length,
}
use halaos_stm32f103_hardwar.Boundary.{all_name_chars, name_valid, zeros, copy_loop, name_copy}

-- The characters of a buffer up to its first NUL.
unfoldable pub c_string : List ℕ → List ℕ
c_string [] = []
c_string (c ∷ s) = let rest = c_string s in if c == 0 then [] else c ∷ rest

c_string-zeros : (n : ℕ) → c_string (zeros n) ≡ []
unfolding c_string zeros
c_string-zeros zero = refl
c_string-zeros (suc n) = refl

length-zeros : (n : ℕ) → length (zeros n) ≡ n
unfolding zeros
length-zeros zero = refl
length-zeros (suc n) = ap suc (length-zeros n)

c_string-cons :
    (c : ℕ) (buffer s : List ℕ)
    → (c == 0) ≡ false
    → c_string buffer ≡ s
    → c_string (c ∷ buffer) ≡ c ∷ s
unfolding c_string
c_string-cons c buffer s other e = rw (other, e) refl

c_string-copy_loop :
    (left : ℕ) (s : List ℕ)
    → length s ≤ left
    → all_name_chars s ≡ true
    → c_string (copy_loop left s) ≡ s
unfolding copy_loop all_name_chars
c_string-copy_loop zero [] le ok = c_string-zeros 1
c_string-copy_loop zero (c ∷ s) le ok = absurd (omega arith)
c_string-copy_loop (suc left) [] le ok = c_string-zeros (left + 2)
c_string-copy_loop (suc left) (c ∷ s) le ok =
    c_string-cons c (copy_loop left s) s (ground arith)
      (c_string-copy_loop left s (omega arith) (ground arith))

length-copy_loop : (left : ℕ) (s : List ℕ) → length (copy_loop left s) ≡ left + 1
unfolding copy_loop
length-copy_loop zero s = length-zeros 1
length-copy_loop (suc left) [] = omega (arith, length-zeros (left + 2))
length-copy_loop (suc left) (c ∷ s) = omega (arith, length-copy_loop left s)

-- A name that name_valid accepts is read back unchanged, up to the first NUL, from the buffer
-- that name_copy fills, and name_copy writes 12 bytes.
pub c_string-name_copy :
    (s : List ℕ) → name_valid s ≡ true → (c_string (name_copy s) ≡ s) × (length (name_copy s) ≡ 12)
unfolding name_valid name_copy
c_string-name_copy s ok =
    (c_string-copy_loop 11 s (ground arith) (ground arith), length-copy_loop 11 s)
