-- ===== src/Uart/Tests.antt =====
-- The receive ring on concrete bytes.
use halaos_stm32f103_hardwar.Prelude.{◌≡◌, refl, some, [], ◌∷◌, arith, get_elem?, drop}
use halaos_stm32f103_hardwar.Samples.{sample}
use halaos_stm32f103_hardwar.Uart.{Uart, usart1_handler, rx_pop}
use halaos_stm32f103_hardwar.Uart.Queue.{Holds, received_bytes, usart1_handler-queue, rx_pop-queue}

abbrev one_byte : Uart
one_byte = record {
  rx_ring = λ i. i;
  rx_head = 0;
  rx_tail = 127;
  uart_irq_count = 1;
  uart_bytes = 1;
  rx_overflow = 0;
  uart_wakeups = 0;
  sched = sample;
}

one_byte-Holds : Holds one_byte (127 ∷ [])
one_byte-Holds = record {
  room = omega arith;
  tail_low = omega arith;
  head_at = refl;
  cells = (refl, tt);
}

usart1_handler-queue_example :
    Holds (usart1_handler (some 65) one_byte) (received_bytes (some 65) (127 ∷ []))
usart1_handler-queue_example = usart1_handler-queue (some 65) one_byte (127 ∷ []) one_byte-Holds

rx_pop-queue_example :
    let (result, r) = rx_pop one_byte in
    (result ≡ get_elem? (127 ∷ []) 0) × Holds r (drop 1 (127 ∷ []))
rx_pop-queue_example = rx_pop-queue one_byte (127 ∷ []) one_byte-Holds
