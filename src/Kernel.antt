-- ===== src/Kernel.antt =====
-- The globals of kangaroos/src/lib.rs and kernel/scheduler.rs, and the calls of port.rs. The field
-- `pendsv` records that a context switch was requested; what the hardware does with the request is
-- not modelled. A critical section (`interrupt_free`) is one call of the function that holds it.
use kangaroos.Base.{ℕ, Bool, true, if◌then◌else◌}
use kangaroos.Tcb.{Ptr, Tasks}

pub record Kernel : Type 0 where
  pub tick : ℕ
  pub current : Ptr
  pub all_tasks : Ptr
  pub tasks : Tasks
  pub pendsv : Bool

-- `port::trigger_pendsv`.
abbrev pub trigger_pendsv : Kernel → Kernel
trigger_pendsv k = record k { pendsv = true }

-- `if need { port::trigger_pendsv() }`.
abbrev pub trigger_pendsv_if : Bool → Kernel → Kernel
trigger_pendsv_if need k = if need then trigger_pendsv k else k
