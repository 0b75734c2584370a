-- ===== src/Sync/Condvar.antt =====
-- kangaroos/src/sync/condvar.rs. `wait_head` leads the list of the tasks that wait.
pub mod Laws
mod Tests
use kangaroos.Base.{ℕ, Bool, true, false, ◌==◌, if◌then◌else◌}
use kangaroos.Run.{Run, ok, ◌>>=◌}
use kangaroos.Tcb.{Ptr, null}
use kangaroos.Kernel.{Kernel, trigger_pendsv, trigger_pendsv_if}
use kangaroos.WaitList.{block_and_push, wait_list_pop_highest}
use kangaroos.Scheduler.{unblock}
use kangaroos.Sync.Drain.{drain}
use kangaroos.Sync.Mutex.{Mutex, lock, unlock_internal}

pub record Condvar : Type 0 where
  pub wait_head : Ptr

abbrev pub new : Condvar
new = record { wait_head = null }

-- Up to the context switch. The mutex is released in the critical section in which the task blocks.
unfoldable pub wait :
    {T : Type 0} → ℕ → Condvar → Mutex T → Kernel → Run (Condvar × Mutex T × Kernel)
wait f c m k = do
  (head, h) ← block_and_push k.tasks c.wait_head k.current
  (m', k') ← unlock_internal f m (record k { tasks = h })
  ok (record c { wait_head = head }, m', trigger_pendsv k')

-- Behind the context switch.
pub wait_resumed : {T : Type 0} → Mutex T → Kernel → Run (Mutex T × Kernel)
wait_resumed m k = lock m k

unfoldable pub notify_one : ℕ → Condvar → Kernel → Run (Condvar × Kernel)
notify_one f c k = if c.wait_head == null then ok (c, k) else do
  (tcb, head, h) ← wait_list_pop_highest f k.tasks c.wait_head
  (preempt, k') ← unblock (record k { tasks = h }) tcb
  ok (record c { wait_head = head }, trigger_pendsv_if preempt k')

unfoldable pub notify_all : ℕ → Condvar → Kernel → Run (Condvar × Kernel)
notify_all f c k = do
  (preempt, k') ← drain f false k c.wait_head
  ok (record c { wait_head = null }, trigger_pendsv_if preempt k')
