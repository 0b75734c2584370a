-- ===== src/WaitList.antt =====
-- The intrusive wait lists of kangaroos/src/kernel/scheduler.rs: a blocked task's state holds the
-- address of the next one. Each loop takes fuel; one more than the number of waiters is enough.
pub mod Links
pub mod Pop
pub mod Push
mod Tests
use kangaroos.Base.{ℕ, zero, suc, ◌==◌, ltb, if◌then◌else◌}
use kangaroos.Run.{Run, ok, panic, out_of_fuel, ◌>>=◌}
use kangaroos.Tcb.{Ptr, null, Tasks, blocked, load, set_state, wait_next_of}

-- `block_and_push`: the new head, and the memory.
unfoldable pub block_and_push : Tasks → (head tcb : Ptr) → Run (Ptr × Tasks)
block_and_push h head tcb = do _ ← load h tcb; ok (tcb, set_state h tcb (blocked head))

-- The walk of `wait_list_pop_highest` to the entry with the smallest priority value.
pub scan : ℕ → Tasks → (best best_prio cur : ℕ) → Run Ptr
scan zero h best best_prio cur = out_of_fuel
scan (suc f) h best best_prio cur = if cur == null then ok best else do
  next ← wait_next_of (h cur).state
  let p = (h cur).priority
  scan f h (if ltb p best_prio then cur else best) (if ltb p best_prio then p else best_prio) next

-- Its loop that unlinks `best` behind its predecessor.
unfoldable pub unlink : ℕ → Tasks → (best best_next prev : Ptr) → Run Tasks
unlink zero h best best_next prev = out_of_fuel
unlink (suc f) h best best_next prev = do
  t ← load h prev
  prev_next ← wait_next_of t.state
  if prev_next == best
      then ok (set_state h prev (blocked best_next))
      else unlink f h best best_next prev_next

-- `wait_list_pop_highest`: the task or null, the new head, and the memory.
unfoldable pub wait_list_pop_highest : ℕ → Tasks → (head : Ptr) → Run (Ptr × Ptr × Tasks)
unfolding scan unlink
wait_list_pop_highest f h head = if head == null then ok (null, head, h) else do
  head_next ← wait_next_of (h head).state
  best ← scan f h head (h head).priority head_next
  best_next ← wait_next_of (h best).state
  if best == head
      then ok (best, best_next, h)
      else do h' ← unlink f h best best_next head; ok (best, head, h')
