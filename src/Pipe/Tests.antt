-- ===== src/Pipe/Tests.antt =====
-- The pipe on concrete bytes.
use halaos_stm32f103_hardwar.Prelude.{
  ℕ, ◌+◌, ◌-◌, ◌≡◌, refl, List, [], ◌∷◌, ◌++◌, arith, length, take, drop, min,
}
use halaos_stm32f103_hardwar.Pipe.{Pipe, pipe_size, pipe_write_priv, pipe_read_priv}
use halaos_stm32f103_hardwar.Pipe.Fifo.{Holds, pipe_write_priv-append, pipe_read_priv-take}

abbrev held : List ℕ
held = 128 ∷ 1 ∷ []

abbrev input : List ℕ
input = 7 ∷ 8 ∷ []

-- Two bytes, the second behind the wrap-around.
abbrev wrapped : Pipe
wrapped = record {
  bytes = λ i. i + 1;
  read_pos = 127;
  write_pos = 1;
  count = 2;
  readers = 1;
  writers = 1;
  pipe_bytes = 2;
  ipc_operations = 2;
}

wrapped-Holds : Holds wrapped held
wrapped-Holds = record {
  count = refl;
  room = omega arith;
  read_low = omega arith;
  write_at = refl;
  cells = (refl, (refl, tt));
}

pipe_write_priv-append_example :
    let (written, r) = pipe_write_priv input wrapped in
    (written ≡ min (length input) (pipe_size - length held))
    × Holds r (held ++ take (pipe_size - length held) input)
pipe_write_priv-append_example = pipe_write_priv-append wrapped held input wrapped-Holds

pipe_read_priv-take_example :
    let (out, total, r) = pipe_read_priv 1 wrapped in
    (out ≡ take 1 held) × (total ≡ min 1 (length held)) × Holds r (drop 1 held)
pipe_read_priv-take_example = pipe_read_priv-take 1 wrapped held wrapped-Holds
