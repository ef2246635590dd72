-- ===== src/Lib.antt =====
-- The kernel of HalaOS, a small operating system for the STM32F103: a model of its scheduler, of
-- its IPC objects, of the byte queues that its console and its pipe use, and of the bytecode that
-- its applications are made of, with the verifier and the machine.
--
-- The program. src/kernel/halaos_kernel.c keeps an array of task control blocks (g_tasks, 13 of
-- them) and three kinds of queues threaded through it: a ready queue for each of 16 real-time
-- levels, a queue of sleeping tasks ordered by due time, and, without links, the fair and the
-- DEADLINE tasks, which it finds by scanning the array. SysTick moves the clock, wakes sleepers and
-- charges the running task; PendSV runs sched_pick_next. Interrupts of USART1 fill a ring of bytes
-- that the shell drains. The services above it (processes, IPC objects, files, bytecode) block and
-- wake tasks through block_current and task_make_ready.
--
-- The files.
--   Prelude, Prelude/*   shared names, Boolean tests, lists, machine words
--   Chain                a queue linked through task indices
--   Ring                 a ring of cells
--   Kernel               Tcb of include/halaos/internal/halaos_internal.h, and the globals of
--                        src/core/halaos_state.c that the scheduler uses, as the record Sched
--   Ready, Ready/*       rt_queue_init, rt_enqueue, rt_remove, rt_rotate, highest_rt
--   Sleep, Sleep/*       sleep_remove, sleep_insert, task_make_ready, sleep_advance
--   Dispatch, Dispatch/* task_precedes, pick_deadline, pick_fair, sched_pick_next,
--                        hala_schedule_next, pend_resched, block_current, stack_guard_check
--   Tick, Tick/*         rt_account, deadline_account
--   Systick, Systick/*   SysTick_Handler; next_event_ticks and enter_idle_tickless of
--                        src/services/halaos_runtime.c
--   Load, Load/*         load_disable_all and load_enable of src/services/halaos_runtime.c
--   Pipe, Pipe/*         pipe_reset, pipe_write_priv, pipe_read_priv of
--                        src/services/halaos_runtime.c
--   Pool, Pool/*         proc_alloc, proc_reap and proc_stress of src/services/halaos_runtime.c
--   Uart, Uart/*         USART1_IRQHandler, uart_wake_shell, rx_pop
--   Ipc, Ipc/*           the IPC objects of src/kernel/halaos_objects.c: handles, queues, events,
--                        semaphores, mutexes (kobj_ipc_*, kobj_sem_*, kobj_mutex_*)
--   Boundary, Boundary/* ptr_in_sram, ptr_readable, app_slot_addr, name_valid, name_copy
--   Bytecode, Bytecode/* bytecode_verify of src/services/halaos_runtime.c
--   Vm, Vm/*             task_vm, vm_trap, vm_complete of src/services/halaos_tasks.c
--   App, App/*           app_verify_slot, app_scan, app_write of src/services/halaos_runtime.c,
--                        app_header_slot of src/kernel/halaos_kernel.c, crc32_bytes of
--                        src/boot/halaos_boot.c
--   Vfs, Vfs/*           kobj_vfs_open, kobj_vfs_close, kobj_vfs_dup2, kobj_vfs_write, kobj_vfs_read
--                        and fd_release_owned of src/kernel/halaos_objects.c
--   Samples, */Tests     a concrete state, and the theorems at it
--
-- The correspondence. A function that changes globals is a function from the state to the state.
-- Words are native numbers with their wrap-around written out; the 8- and 16-bit indices stay below
-- 256, since they are task indices, levels or ring positions. g_rt_bitmap is a function from a bit
-- to its value. g_current is the address of the task g_current_index, and never null once tasks run.
-- A signed result or value is the u32 of the same bits. A user address is a number, and `none` for
-- NULL; what the kernel writes through it is a change of Kobj's memory and frames. The resource
-- profile is the default one: 4 IPC objects and 8 processes.
-- A loop over links runs on fuel, MAX_TASKS + 1 rounds: a queue without repetitions holds at most
-- MAX_TASKS tasks and one more round sees its end. The theorems on the queues show that this is
-- enough. The walks of bytecode_verify run on one round more than the code has bytes, which
-- Bytecode.Fuel and Bytecode.Reject show to be enough. Loops over an array or a count are structural.
--
-- The specifications. IsReadyQueues relates the links, heads, tails and bitmap to one list of tasks
-- a level; Sleepers relates links and deltas to a list of tasks with their absolute due times; Holds
-- (of Pipe, of Uart and of Ipc.Queue) relates a ring to a list of bytes.
--
-- Not modelled: the context switch and the fault handlers (assembly), register access other than
-- the request of PendSV and the timer's reload value, and the parts above: processes, system
-- calls, the compilers, the shell, the rest of the boot loader and the device tree. The flash
-- controller that flash_erase_page and flash_program_half drive is a parameter, FlashPart, with
-- the laws that app_write relies on, after its manual (PM0075): an erased page reads as ones, a
-- half-word that is erased can be programmed, any can be set to 0, and every other write is
-- skipped. app_write gives up at the stages of g_app_fail_stage only: a loss of power at other
-- moments is not modelled. The results of the GPIO system call, and the texts that a read of /proc
-- composes from other parts, are arguments.
pub mod Prelude
pub mod App
pub mod Boundary
pub mod Bytecode
pub mod Chain
pub mod Ipc
pub mod Kernel
pub mod Ready
pub mod Samples
pub mod Sleep
pub mod Dispatch
pub mod Load
pub mod Pipe
pub mod Pool
pub mod Ring
pub mod Systick
pub mod Tick
pub mod Uart
pub mod Vfs
pub mod Vm
