-- ===== src/Lib.antt =====
-- Kangaroos: a preemptive priority scheduler for single-core Cortex-M devices, with the primitives on
-- which its tasks block. The development models the crates `kangaroos` and `kangaroos-macros`.
--
-- The parts and how they interact. A task is a control block (`Tcb`) in a global list. The scheduler
-- picks the next task in PendSV; SysTick calls `tick`, which wakes sleepers and asks for a switch; the
-- primitives block the current task in a wait list and unblock the waiter of the highest priority.
-- - Tcb: kangaroos/src/kernel/tcb.rs. A pointer is a number, 0 for null; the memory is a function from
--   pointers to control blocks. Control blocks are static and are never freed.
-- - Kernel: the globals `TICK`, `CURRENT` and `ALL_TASKS` of kangaroos/src/lib.rs and
--   kernel/scheduler.rs as one record, with the PendSV request of port.rs.
-- - WaitList: `block_and_push` and `wait_list_pop_highest` of kernel/scheduler.rs. WaitList/Links says
--   what a list of waiters is; Pick says what it is to pick the highest priority from a list.
-- - Scheduler: `find_next`, `unblock`, `svc_first_task_sp`, `pendsv_save_and_switch`. Its invariant is
--   in Scheduler/Invariant.
-- - Tick: `tick`, one function for each of its loops.
-- - Sync: kangaroos/src/sync: mutex.rs, semaphore.rs, condvar.rs, once.rs and event_group.rs. What they
--   do with their waiters is in Sync/Handover and Sync/Drain.
-- - Channel: kangaroos/src/channel/mod.rs; Channel/Handles has the traits, `Sender` and `Receiver`, and
--   Channel/View is what a channel stands for, which Channel/Sending, Channel/Receiving and
--   Channel/Trying refer to. Pool: kangaroos/src/mem/mod.rs, and Pool/View what a pool stands for, with
--   `PoolBox`. Slots: their storage, and the tasks that wait with the address of a stack slot.
-- - Task: what a running task does to its own state, kangaroos/src/task.rs.
-- - Timer: kangaroos/src/timer/mod.rs.
-- - Arch: kangaroos/src/arch. Arch/Cpu and Arch/Asm are the processor and the Thumb instructions of the
--   exception stubs; Arch/V6m, Arch/V7m and Arch/Fpu have the stubs `PendSV` and `SVCall` of v6m.rs,
--   v7m.rs, v7em_fpu.rs and v8m.rs, instruction by instruction; Arch/Frame has `stack_init` and the
--   canaries of mod.rs; Arch/V8m has the functions of v8m.rs that also set PSPLIM; Arch/Ports and
--   Arch/Select say which port has what. Arch/Stub is what a stub promises, and Arch/V6m/Laws,
--   Arch/V7m/Laws and Arch/Fpu/Laws that each stub keeps it; Arch/Threads, Arch/Switch and Arch/Rounds
--   put stubs and scheduler together.
-- - Boot: `SpawnToken`, `Spawner::spawn` and `spawn_into` of kangaroos/src/task.rs, `TaskStorage` of
--   kernel/storage.rs, `register` of kernel/idle.rs, and `systick_handler` of kernel/mod.rs. Boot/Start
--   is `start` of kernel/mod.rs, whose calls of the device are a list; Boot/Main is the `main` that the
--   macro makes, up to the first task. Arch/Select has the flags that kangaroos/build.rs derives from a
--   target.
-- - Macros: kangaroos-macros/src/lib.rs. Macros/Args has the parsers of the attributes, Macros/Print how
--   attributes are written and what they mean, Macros/Expand what `task` and `main` put in place of the
--   function, and Macros/Factory the quoted code as it runs.
-- - System: the steps of interrupts and tasks on one kernel, in any order, down to the calls and writes that
--   the primitives are composed of. System/Primitives has it that each primitive that returns is a sequence of
--   such steps, System/Traces has the sequences of ticks, switches and calls of primitives, and System/Main
--   has these behind a whole `main`. The calls are those of the task that is current; that a primitive returns
--   where its waiters are well linked is said of each primitive in its own module.
-- - Base, Run, Pick: shared names, the results of code that may panic or fault, and the shared lemmas.
-- - Samples, and a module Tests for each part: kernels of three tasks, and runs on them.
--
-- The crate `syn` is a parameter of Macros: a stream of tokens, what is read off it, and the error of a call
-- that cannot read. What the parsers rely on is in two records: `Reads`, that `syn` reads what was written,
-- and `Consumes`, that a key takes a token off the stream. Macros/Tests has streams that keep both. The value
-- of an expression, the text of a literal and the places of storage and functions come from the compiler and
-- the linker and are parameters too.
--
-- Conventions. A function takes the state and returns it. A critical section (`interrupt_free`) is one
-- call, so no step of another task or interrupt comes between its parts. A function that blocks its
-- caller returns where the context switch follows. `unreachable!()` and panics are the result `panic`,
-- a dereference of null is `null_deref`, a read of
-- storage that is not initialised is `uninit_read`.
--
-- Bounds and fuel. Each loop over a linked list takes fuel and ends in `out_of_fuel` without it. The
-- theorems take more fuel than the list has tasks and prove that the code returns. `u64` values wrap
-- at 2 ^ 64. An event group has 32 flags, so its masks are complemented at 2 ^ 32 - 1. Priorities,
-- counts and slices are `u8` in the code; nothing is added to a priority, and a count or slice stays
-- between 0 and the bound that it is given. The loops of the attribute parsers take fuel too, and more than
-- the tokens of the stream is enough.
--
-- The processor. Addresses have 32 bits, and memory is words at byte addresses. The architecture gives
-- the facts on exceptions: EXC_RETURN is in LR and CONTROL.FPCA is clear when a handler starts, and a
-- branch to EXC_RETURN goes back to the thread whose frame PSP points to. The Rust code that a stub calls
-- runs on the main stack; it returns in r0, keeps r4 to r11 and may change the other registers, as the
-- procedure call standard says. Between two switches a thread may do anything with its registers and its
-- own stack, and the scheduler's state may be any other that has its invariant.
--
-- Not modelled: what the device registers that `start` writes do, but for priorities and the reload of SysTick;
-- exceptions inside a handler; the FPU registers as a part of what a thread gets back; the addresses in
-- `TaskStorage`; the body of the idle task and the host variants of port.rs, which do nothing; the macros
-- for named statics; the destructors of values; logging; the example, whose tasks print.
mod Base
pub mod Run
pub mod Pick
pub mod Tcb
pub mod WaitList
pub mod Kernel
pub mod Scheduler
pub mod Tick
pub mod Sync
pub mod Task
pub mod Timer
pub mod Slots
pub mod Channel
pub mod Pool
pub mod Samples
pub mod Arch
pub mod Boot
pub mod Macros
pub mod System
