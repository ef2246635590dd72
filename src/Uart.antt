-- ===== src/Uart.antt =====
-- The console's receive ring: USART1_IRQHandler, uart_wake_shell and rx_pop of
-- src/kernel/halaos_kernel.c.
pub mod Queue
mod Tests
use halaos_stm32f103_hardwar.Prelude.{
  ℕ, ◌+◌, ◌%◌, Bool, true, false, ◌||◌, not, Option, none, some, ◌==◌, if◌then◌else◌, update, inc32,
}
use halaos_stm32f103_hardwar.Kernel.{TaskState, Sched, is_blocked}
use halaos_stm32f103_hardwar.Sleep.{set_task}

abbrev pub rx_size : ℕ
rx_size = 128

-- The ring, its counters, and the kernel's state, which the handler changes to wake the shell.
pub record Uart : Type 0 where
  pub rx_ring : ℕ → ℕ
  pub rx_head : ℕ
  pub rx_tail : ℕ
  pub uart_irq_count : ℕ
  pub uart_bytes : ℕ
  pub rx_overflow : ℕ
  pub uart_wakeups : ℕ
  pub sched : Sched

-- The shell's index in g_tasks.
abbrev pub shell : ℕ
shell = 1

unfoldable pub uart_wake_shell : Uart → Uart
uart_wake_shell u =
    let k = u.sched in
    let k' = set_task shell (record (k.tasks shell) { state = TaskState.ready }) k in
    if is_blocked (k.tasks shell).state
    then record u {
      uart_wakeups = inc32 u.uart_wakeups;
      sched = record k' {
        wakeup_count = inc32 k.wakeup_count;
        need_resched = true;
        pendsv = k.pendsv || not k.in_systick;
      };
    }
    else u

-- `& 127u` on a position is the remainder by 128.
pub store_byte : ℕ → Uart → Uart
store_byte v u =
    let next = (u.rx_head + 1) % rx_size in
    let u' = record u { uart_bytes = inc32 u.uart_bytes } in
    if next == u.rx_tail
    then record u' { rx_overflow = inc32 u.rx_overflow }
    else uart_wake_shell (record u' { rx_ring = update u.rx_ring u.rx_head v; rx_head = next })

-- `received` is the byte of USART1_DR if bit 5 of USART1_SR is set.
unfoldable pub usart1_handler : Option ℕ → Uart → Uart
usart1_handler received u = elim received [
  | none ↦ record u { uart_irq_count = inc32 u.uart_irq_count }
  | some v ↦ store_byte v (record u { uart_irq_count = inc32 u.uart_irq_count })
]

-- `none` stands for the result -1.
unfoldable pub rx_pop : Uart → Option ℕ × Uart
rx_pop u =
    if u.rx_tail == u.rx_head
    then (none, u)
    else (some (u.rx_ring u.rx_tail), record u { rx_tail = (u.rx_tail + 1) % rx_size })
