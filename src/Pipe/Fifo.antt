-- ===== src/Pipe/Fifo.antt =====
-- The pipe is a queue of at most 128 bytes: what is written is read in the same order.
use halaos_stm32f103_hardwar.Prelude.{
  ℕ, zero, suc, ◌+◌, ◌-◌, ◌%◌, ◌≤◌, ◌<◌, ◌≡◌, refl, sym, subst, ap, ap₂, ◌∙◌, true, false, List, [],
  ◌∷◌, ◌++◌, arith, ◌==◌, ltb, length, take, drop, min, inl, inr, Bool-cases, length-append,
}
use halaos_stm32f103_hardwar.Ring.{wrap, Cells, Cells-append_one}
use halaos_stm32f103_hardwar.Pipe.{
  Pipe, pipe_size, pipe_reset, pipe_write_priv, pipe_read_priv, write_loop, read_loop, put_byte,
  take_byte,
}

-- The pipe holds the bytes `q`, the oldest first.
pub record Holds (k : Pipe) (q : List ℕ) : Type 0 where
  pub count : k.count ≡ length q
  pub room : length q ≤ pipe_size
  pub read_low : k.read_pos < pipe_size
  pub write_at : k.write_pos ≡ wrap pipe_size (k.read_pos + length q)
  pub cells : Cells pipe_size k.bytes k.read_pos q

put_byte-Holds :
    (v : ℕ) (k : Pipe) (q : List ℕ)
    → Holds k q
    → length q < pipe_size
    → Holds (put_byte v k) (q ++ v ∷ [])
unfolding put_byte
put_byte-Holds v k q h small = record {
  count = rw (length-append q (v ∷ []), h.count) (omega arith);
  room = rw (length-append q (v ∷ [])) (omega arith);
  read_low = h.read_low;
  write_at = rw (length-append q (v ∷ []), h.write_at) (ground (arith, h.read_low));
  cells =
      Cells-append_one pipe_size k.bytes k.read_pos k.write_pos v q h.read_low small h.write_at
        h.cells;
}

take_byte-Holds : (v : ℕ) (k : Pipe) (q : List ℕ) → Holds k (v ∷ q) → Holds (take_byte k) q
unfolding take_byte
take_byte-Holds v k q h =
    let low = h.read_low in
    let step : (k.read_pos + 1) % pipe_size ≡ wrap pipe_size (k.read_pos + 1) = ground arith in
    record {
      count = rw h.count (ground (arith, h.room));
      room = ground (arith, h.room);
      read_low = omega arith;
      write_at = rw (step, h.write_at) (ground arith);
      cells = rw step h.cells.1;
    }

append-cons : (q : List ℕ) (v : ℕ) (vs : List ℕ) → (q ++ v ∷ []) ++ vs ≡ q ++ v ∷ vs
append-cons [] v vs = refl
append-cons (x ∷ q) v vs = ap (λ l. x ∷ l) (append-cons q v vs)

append_nil : (q : List ℕ) → q ++ [] ≡ q
append_nil [] = refl
append_nil (x ∷ q) = ap (λ l. x ∷ l) (append_nil q)

take_nil : (n : ℕ) → take {A = ℕ} n [] ≡ []
take_nil zero = refl
take_nil (suc n) = refl

take_none : (n : ℕ) (vs : List ℕ) → n ≡ 0 → take n vs ≡ []
take_none zero vs e = refl
take_none (suc n) vs e = absurd (omega arith)

take_some : (n m v : ℕ) (vs : List ℕ) → n ≡ suc m → take n (v ∷ vs) ≡ v ∷ take m vs
take_some n m v vs e = rw e

Written : ℕ → ℕ → List ℕ → List ℕ → ℕ × Pipe → Type 0
Written done space q vs r = (r.0 ≡ done + min (length vs) space) × Holds r.1 (q ++ take space vs)

write_loop-Written :
    (vs : List ℕ) (done : ℕ) (k : Pipe) (q : List ℕ)
    → Holds k q
    → Written done (pipe_size - length q) q vs (write_loop vs done k)
unfolding write_loop Written
write_loop-Written [] done k q h =
    let none_left : take (pipe_size - length q) [] ≡ [] = take_nil (pipe_size - length q) in
    (omega arith, rw (none_left, append_nil q) h)
write_loop-Written (v ∷ vs) done k q h = elim (Bool-cases (ltb k.count pipe_size)) [
  | inl room ↦
      let small : length q < pipe_size = ground (arith, h.count) in
      let size : length (q ++ v ∷ []) ≡ suc (length q) = omega (arith, length-append q (v ∷ [])) in
      let space : pipe_size - length q ≡ suc (pipe_size - suc (length q)) = omega arith in
      let rest =
        write_loop-Written vs (done + 1) (put_byte v k) (q ++ v ∷ [])
          (put_byte-Holds v k q h small) in
      rw
        (
          room,
          take_some (pipe_size - length q) (pipe_size - suc (length q)) v vs space,
          sym (append-cons q v (take (pipe_size - suc (length q)) vs)),
          sym size,
        )
        (omega (arith, rest.0, size), rest.1)
  | inr full ↦
      let none_left : pipe_size - length q ≡ 0 = ground (arith, h.count) in
      rw (full, take_none (pipe_size - length q) (v ∷ vs) none_left, append_nil q)
        (omega (arith, none_left), h)
]

ReadOff : ℕ → ℕ → List ℕ → List ℕ × ℕ × Pipe → Type 0
ReadOff done n q r = (r.0 ≡ take n q) × (r.1 ≡ done + min n (length q)) × Holds r.2 (drop n q)

read_loop-ReadOff :
    (n done : ℕ) (k : Pipe) (q : List ℕ) → Holds k q → ReadOff done n q (read_loop n done k)
unfolding read_loop ReadOff
read_loop-ReadOff zero done k q h = (refl, omega arith, h)
read_loop-ReadOff (suc n) done k [] h =
    let empty : (k.count == 0) ≡ true = ground (arith, h.count) in rw empty (refl, omega arith, h)
read_loop-ReadOff (suc n) done k (v ∷ q) h =
    let some_left : (k.count == 0) ≡ false = ground (arith, h.count) in
    let rest = read_loop-ReadOff n (done + 1) (take_byte k) q (take_byte-Holds v k q h) in
    rw some_left
      (ap₂ (λ (x : ℕ) (l : List ℕ). x ∷ l) h.cells.0 rest.0, omega (arith, rest.1), rest.2)

-- A pipe that has been reset holds nothing, whatever it held before.
pub pipe_reset-Holds : (k : Pipe) → Holds (pipe_reset k) []
unfolding pipe_reset
pipe_reset-Holds k = record {
  count = refl;
  room = omega arith;
  read_low = omega arith;
  write_at = refl;
  cells = tt;
}

-- On a pipe that holds the bytes `q`, pipe_write_priv appends as many of the bytes given, from
-- the first on, as there is room for below 128, and returns their number.
pub pipe_write_priv-append :
    (k : Pipe) (q input : List ℕ)
    → Holds k q
    → let (written, r) = pipe_write_priv input k in
      (written ≡ min (length input) (pipe_size - length q))
      × Holds r (q ++ take (pipe_size - length q) input)
unfolding pipe_write_priv Written
pipe_write_priv-append k q input h =
    let w = write_loop-Written input 0 k q h in (omega (arith, w.0), w.1)

-- On a pipe that holds the bytes `q`, pipe_read_priv of `n` bytes returns the oldest `n` bytes,
-- or all if there are fewer, in order and with their number, and leaves the rest in the pipe.
pub pipe_read_priv-take :
    (n : ℕ) (k : Pipe) (q : List ℕ)
    → Holds k q
    → let (out, total, r) = pipe_read_priv n k in
      (out ≡ take n q) × (total ≡ min n (length q)) × Holds r (drop n q)
unfolding pipe_read_priv ReadOff
pipe_read_priv-take n k q h = let r = read_loop-ReadOff n 0 k q h in (r.0, omega (arith, r.1), r.2)

take_all : (n : ℕ) (vs : List ℕ) → length vs ≤ n → take n vs ≡ vs
take_all zero [] le = refl
take_all zero (v ∷ vs) le = absurd (omega arith)
take_all (suc n) [] le = refl
take_all (suc n) (v ∷ vs) le = ap (λ l. v ∷ l) (take_all n vs (omega arith))

-- On a pipe that holds `q` and has room for the bytes given, a write of them, followed by a read
-- of as many bytes as the pipe then holds, returns `q` followed by these bytes.
pub pipe_read_priv-pipe_write_priv :
    (k : Pipe) (q input : List ℕ)
    → Holds k q
    → length q + length input ≤ pipe_size
    → (pipe_read_priv (length q + length input) (pipe_write_priv input k).1).0 ≡ q ++ input
pipe_read_priv-pipe_write_priv k q input h room =
    let w = pipe_write_priv-append k q input h in
    let whole : take (pipe_size - length q) input ≡ input =
      take_all (pipe_size - length q) input (omega arith) in
    let held : Holds (pipe_write_priv input k).1 (q ++ input) =
      subst (λ l. Holds (pipe_write_priv input k).1 (q ++ l)) whole w.1 in
    (pipe_read_priv-take (length q + length input) (pipe_write_priv input k).1 (q ++ input) held).0
    ∙ take_all (length q + length input) (q ++ input) (omega (arith, length-append q input))
