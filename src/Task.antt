-- ===== src/Task.antt =====
-- kangaroos/src/task.rs: what a running task does to its own state. The spawning of tasks is
-- not modelled.
pub mod Laws
use kangaroos.Base.{ℕ, ◌+◌, ◌%◌, ◌^◌}
use kangaroos.Run.{Run, ok, ◌>>=◌}
use kangaroos.Tcb.{Ptr, Tasks, TaskState, running, sleeping, dead, load, set_state}
use kangaroos.Kernel.{Kernel, trigger_pendsv}

-- `if let TaskState::Running { ref mut slice_remaining } = s { *slice_remaining = 0 }`.
abbrev pub without_slice : TaskState → TaskState
without_slice (running _) = running 0
without_slice s = s

unfoldable pub yield_now : Kernel → Run Kernel
yield_now k = do
  t ← load k.tasks k.current
  ok (trigger_pendsv (record k { tasks = set_state k.tasks k.current (without_slice t.state) }))

unfoldable pub current_priority : Kernel → Run ℕ
current_priority k = do t ← load k.tasks k.current; ok t.priority

-- `(*crate::CURRENT).state = s`, and a context switch.
leave_cpu : TaskState → Kernel → Run Kernel
leave_cpu s k = do
  _ ← load k.tasks k.current
  ok (trigger_pendsv (record k { tasks = set_state k.tasks k.current s }))

pub sleep_until : (deadline : ℕ) → Kernel → Run Kernel
unfolding leave_cpu
sleep_until deadline k = leave_cpu (sleeping deadline) k

-- `TICK.wrapping_add(duration)`, and `sleep_until`.
pub sleep : (ticks : ℕ) → Kernel → Run Kernel
sleep ticks k = sleep_until ((k.tick + ticks) % 2 ^ 64) k

-- Up to the context switch; the loop behind it is never reached.
pub exit : Kernel → Run Kernel
unfolding leave_cpu
exit k = leave_cpu dead k
