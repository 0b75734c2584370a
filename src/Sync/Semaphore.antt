-- ===== src/Sync/Semaphore.antt =====
-- kangaroos/src/sync/semaphore.rs. The semaphore's `wait_head` leads the list of the tasks that wait.
pub mod Laws
use kangaroos.Base.{ℕ, ◌+◌, ◌-◌, Bool, true, false, not, ◌==◌, ltb, if◌then◌else◌}
use kangaroos.Run.{Run, ok, ◌>>=◌}
use kangaroos.Tcb.{Ptr, null}
use kangaroos.Kernel.{Kernel, trigger_pendsv, trigger_pendsv_if}
use kangaroos.WaitList.{block_and_push, wait_list_pop_highest}
use kangaroos.Scheduler.{unblock}

pub record Semaphore : Type 0 where
  pub count : ℕ
  pub max : ℕ
  pub wait_head : Ptr

abbrev pub new : (initial max : ℕ) → Semaphore
new initial max = record { count = initial; max = max; wait_head = null }

-- Up to the return, or to the context switch of a task that blocks.
unfoldable pub take : Semaphore → Kernel → Run (Semaphore × Kernel)
take s k = if ltb 0 s.count then ok (record s { count = s.count - 1 }, k) else do
  (head, h) ← block_and_push k.tasks s.wait_head k.current
  ok (record s { wait_head = head }, trigger_pendsv (record k { tasks = h }))

unfoldable pub try_take : Semaphore → Bool × Semaphore
try_take s = if ltb 0 s.count then (true, record s { count = s.count - 1 }) else (false, s)

unfoldable pub give : ℕ → Semaphore → Kernel → Run (Semaphore × Kernel)
give f s k =
    if not (s.wait_head == null)
    then (do
      (tcb, head, h) ← wait_list_pop_highest f k.tasks s.wait_head
      (need_preempt, k') ← unblock (record k { tasks = h }) tcb
      ok (record s { wait_head = head }, trigger_pendsv_if need_preempt k'))
    else (if ltb s.count s.max then ok (record s { count = s.count + 1 }, k) else ok (s, k))
