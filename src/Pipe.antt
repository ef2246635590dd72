-- ===== src/Pipe.antt =====
-- The kernel's pipe: HalaPipe of include/halaos/internal/halaos_internal.h, and pipe_reset,
-- pipe_write_priv and pipe_read_priv of src/services/halaos_runtime.c.
pub mod Fifo
mod Tests
use halaos_stm32f103_hardwar.Prelude.{
  ℕ, zero, suc, ◌+◌, ◌-◌, ◌%◌, List, [], ◌∷◌, ◌==◌, ltb, if◌then◌else◌, update, inc32, u16_mod,
}

abbrev pub pipe_size : ℕ
pipe_size = 128

-- With g_pipe stand the two counters that its operations keep; `bytes` is its array `data`.
pub record Pipe : Type 0 where
  pub bytes : ℕ → ℕ
  pub read_pos : ℕ
  pub write_pos : ℕ
  pub count : ℕ
  pub readers : ℕ
  pub writers : ℕ
  pub pipe_bytes : ℕ
  pub ipc_operations : ℕ

unfoldable pub pipe_reset : Pipe → Pipe
pipe_reset k = record k {
  bytes = λ i. 0;
  read_pos = 0;
  write_pos = 0;
  count = 0;
  readers = 1;
  writers = 1;
}

-- The bodies of the two loops.
pub put_byte : ℕ → Pipe → Pipe
put_byte v k = record k {
  bytes = update k.bytes k.write_pos v;
  write_pos = (k.write_pos + 1) % pipe_size;
  count = (k.count + 1) % u16_mod;
  pipe_bytes = inc32 k.pipe_bytes;
  ipc_operations = inc32 k.ipc_operations;
}

pub take_byte : Pipe → Pipe
take_byte k = record k {
  read_pos = (k.read_pos + 1) % pipe_size;
  count = (k.count + u16_mod - 1) % u16_mod;
  ipc_operations = inc32 k.ipc_operations;
}

-- The list is what stands at `data + done`, `n - done` bytes.
pub write_loop : List ℕ → ℕ → Pipe → ℕ × Pipe
write_loop [] done k = (done, k)
write_loop (v ∷ vs) done k =
    let rest = write_loop vs (done + 1) (put_byte v k) in
    if ltb k.count pipe_size then rest else (done, k)

unfoldable pub pipe_write_priv : List ℕ → Pipe → ℕ × Pipe
pipe_write_priv input k = write_loop input 0 k

-- `left` is `n - done`. The bytes that go to `out` are the first component.
pub read_loop : ℕ → ℕ → Pipe → List ℕ × ℕ × Pipe
read_loop zero done k = ([], done, k)
read_loop (suc left) done k =
    let (out, total, k') = read_loop left (done + 1) (take_byte k) in
    if k.count == 0 then ([], done, k) else (k.bytes k.read_pos ∷ out, total, k')

unfoldable pub pipe_read_priv : ℕ → Pipe → List ℕ × ℕ × Pipe
pipe_read_priv n k = read_loop n 0 k
