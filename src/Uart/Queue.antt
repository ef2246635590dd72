-- ===== src/Uart/Queue.antt =====
-- The receive ring is a queue of at most 127 bytes: one cell stays free, so that a full ring
-- differs from an empty one.
use halaos_stm32f103_hardwar.Prelude.{
  ℕ, ◌+◌, ◌-◌, ◌%◌, ◌<◌, ◌≡◌, refl, true, false, Option, none, some, List, [], ◌∷◌, ◌++◌, arith,
  ◌==◌, ltb, if◌then◌else◌, inl, inr, Bool-cases, inc32, length, get_elem?, drop, ap, length-append,
}
use halaos_stm32f103_hardwar.Ring.{wrap, Cells, Cells-append_one}
use halaos_stm32f103_hardwar.Uart.{
  Uart, rx_size, usart1_handler, store_byte, uart_wake_shell, shell, rx_pop,
}
use halaos_stm32f103_hardwar.Kernel.{is_blocked}

-- The ring holds the bytes `q`, the oldest first.
pub record Holds (u : Uart) (q : List ℕ) : Type 0 where
  pub room : length q < rx_size
  pub tail_low : u.rx_tail < rx_size
  pub head_at : u.rx_head ≡ wrap rx_size (u.rx_tail + length q)
  pub cells : Cells rx_size u.rx_ring u.rx_tail q

-- Waking the shell changes no part of the ring.
wake-Holds : (u : Uart) (q : List ℕ) → Holds u q → Holds (uart_wake_shell u) q
unfolding uart_wake_shell
wake-Holds u q h = elim (Bool-cases (is_blocked (u.sched.tasks shell).state)) [
  | inl blocked ↦
      rw blocked
        (record { room = h.room; tail_low = h.tail_low; head_at = h.head_at; cells = h.cells })
  | inr other ↦ rw other h
]

store_byte-Holds :
    (v : ℕ) (u : Uart) (q : List ℕ)
    → Holds u q
    → Holds (store_byte v u) (if ltb (length q) (rx_size - 1) then q ++ v ∷ [] else q)
unfolding store_byte
store_byte-Holds v u q h = elim (Bool-cases (ltb (length q) (rx_size - 1))) [
  | inl room ↦
      let e = h.head_at in
      let low = h.tail_low in
      let apart : ((u.rx_head + 1) % rx_size == u.rx_tail) ≡ false = ground arith in
      rw (room, apart)
        (wake-Holds _ (q ++ v ∷ []) (record {
          room = ground (arith, length-append q (v ∷ []));
          tail_low = low;
          head_at = rw (length-append q (v ∷ []), e) (ground arith);
          cells =
              Cells-append_one rx_size u.rx_ring u.rx_tail u.rx_head v q low (ground arith) e
                h.cells;
        }))
  | inr full ↦
      let e = h.head_at in
      let low = h.tail_low in
      let small = h.room in
      let meet : ((u.rx_head + 1) % rx_size == u.rx_tail) ≡ true = ground arith in
      rw (full, meet) (record { room = small; tail_low = low; head_at = e; cells = h.cells })
]

-- What the handler makes of the bytes that the ring holds.
abbrev pub received_bytes : Option ℕ → List ℕ → List ℕ
received_bytes none q = q
received_bytes (some v) q = if ltb (length q) (rx_size - 1) then q ++ v ∷ [] else q

-- Where the receive ring holds the bytes `q`, after USART1_IRQHandler with a byte it holds that
-- byte behind the others, if it held fewer than 127; a full ring, and any ring after an interrupt
-- without a byte, holds what it held.
pub usart1_handler-queue :
    (received : Option ℕ) (u : Uart) (q : List ℕ)
    → Holds u q
    → Holds (usart1_handler received u) (received_bytes received q)
unfolding usart1_handler
usart1_handler-queue none u q h = record {
  room = h.room;
  tail_low = h.tail_low;
  head_at = h.head_at;
  cells = h.cells;
}
usart1_handler-queue (some v) u q h =
    store_byte-Holds v (record u { uart_irq_count = inc32 u.uart_irq_count }) q
      (record { room = h.room; tail_low = h.tail_low; head_at = h.head_at; cells = h.cells })

-- What rx_pop returns and leaves of the bytes `q`.
Popped : List ℕ → Option ℕ × Uart → Type 0
Popped [] r = (r.0 ≡ none) × Holds r.1 []
Popped (v ∷ q) r = (r.0 ≡ some v) × Holds r.1 q

rx_pop-cases : (u : Uart) (q : List ℕ) → Holds u q → Popped q (rx_pop u)
unfolding rx_pop Popped
rx_pop-cases u [] h =
    let e = h.head_at in
    let low = h.tail_low in
    let empty : (u.rx_tail == u.rx_head) ≡ true = ground arith in rw empty (refl, h)
rx_pop-cases u (v ∷ q) h =
    let e = h.head_at in
    let low = h.tail_low in
    let small = h.room in
    let filled : (u.rx_tail == u.rx_head) ≡ false = ground arith in
    let step : (u.rx_tail + 1) % rx_size ≡ wrap rx_size (u.rx_tail + 1) = ground arith in
    rw (filled, step)
      (
        ap some h.cells.0,
        record {
          room = omega arith;
          tail_low = ground arith;
          head_at = rw e (ground arith);
          cells = h.cells.1;
        },
      )

-- Where the receive ring holds the bytes `q`, rx_pop returns the oldest one and takes it off; on
-- an empty ring it returns -1 and changes nothing that is held.
pub rx_pop-queue :
    (u : Uart) (q : List ℕ)
    → Holds u q
    → let (result, r) = rx_pop u in (result ≡ get_elem? q 0) × Holds r (drop 1 q)
unfolding Popped
rx_pop-queue u [] h = rx_pop-cases u [] h
rx_pop-queue u (v ∷ q) h = rx_pop-cases u (v ∷ q) h
