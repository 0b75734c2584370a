-- ===== src/Scheduler.antt =====
-- kangaroos/src/kernel/scheduler.rs: selection of the next task, the tick, launch and switch. Each
-- walk of the list of all tasks takes fuel; one more than the number of tasks is enough.
pub mod Chain
pub mod Fair
pub mod FindNext
pub mod Invariant
pub mod Launch
pub mod Switch
pub mod Tests
use kangaroos.Base.{
  ℕ, zero, suc, ◌+◌, ◌-◌, ◌%◌, ◌^◌, Bool, true, false, not, ◌&&◌, ◌||◌, ◌==◌, ltb, leb,
  if◌then◌else◌,
}
use kangaroos.Run.{Run, ok, panic, null_deref, out_of_fuel, ◌>>=◌}
use kangaroos.Tcb.{
  Ptr, null, Tcb, Tasks, TaskState, ready, running, sleeping, load, write, set_state, is_ready,
  is_running,
}
use kangaroos.Kernel.{Kernel}

-- Ready or running.
abbrev pub eligible : TaskState → Bool
eligible s = is_ready s || is_running s

-- One pass of `find_next` from `t` up to `stop`: the best task so far, and its priority.
unfoldable pub pass : ℕ → Tasks → (stop best best_prio t : ℕ) → Run (Ptr × ℕ)
pass zero h stop best best_prio t = out_of_fuel
pass (suc f) h stop best best_prio t =
    let p = (h t).priority in
    let wins = eligible (h t).state && ((best == null) || ltb p best_prio) in
    let rest =
      pass f h stop (if wins then t else best) (if wins then p else best_prio) (h t).all_next in
    if (t == null) || (t == stop) then ok (best, best_prio) else rest

-- Where the first pass starts: behind `CURRENT`, or at the head of the list.
unfoldable pub start : Kernel → Ptr
start k =
    if k.current == null
    then k.all_tasks
    else (if (k.tasks k.current).all_next == null
        then k.all_tasks
        else (k.tasks k.current).all_next)

-- `find_next`, with `u8::MAX` as the first best priority.
unfoldable pub find_next : ℕ → Kernel → Run Ptr
find_next f k = do
  (best, best_prio) ← pass f k.tasks null null 255 (start k)
  (best', _) ←
      if k.current == null
      then ok (best, best_prio)
      else pass f k.tasks (start k) best best_prio k.all_tasks
  if best' == null then panic else ok best'

-- `unblock`: the memory, and whether the task preempts the current one.
unfoldable pub unblock : Kernel → Ptr → Run (Bool × Kernel)
unblock k tcb = do
  t ← load k.tasks tcb
  let h = set_state k.tasks tcb (ready t.time_slice)
  c ← load h k.current
  ok (ltb t.priority c.priority, record k { tasks = h })

-- `svc_first_task_sp`: the walk for the ready task with the least priority number below `u8::MAX`.
unfoldable pub first_task : ℕ → Tasks → (best best_prio t : ℕ) → Run Ptr
first_task zero h best best_prio t = out_of_fuel
first_task (suc f) h best best_prio t =
    let p = (h t).priority in
    let wins = is_ready (h t).state && ltb p best_prio in
    let rest =
      first_task f h (if wins then t else best) (if wins then p else best_prio) (h t).all_next in
    if t == null then ok best else rest

-- `let TaskState::Ready { slice_remaining } = s else { unreachable!() }`.
abbrev pub slice_of : TaskState → Run ℕ
slice_of (ready s) = ok s
slice_of _ = panic

-- The task becomes `CURRENT` and goes from ready to running; its stack pointer is returned.
unfoldable pub dispatch : Kernel → Ptr → Run (ℕ × Kernel)
dispatch k next = do
  t ← load k.tasks next
  slice ← slice_of t.state
  ok (t.sp, record k { current = next; tasks = set_state k.tasks next (running slice) })

unfoldable pub svc_first_task_sp : ℕ → Kernel → Run (ℕ × Kernel)
svc_first_task_sp f k = do best ← first_task f k.tasks null 255 k.all_tasks; dispatch k best

-- The state of a task that is switched out.
abbrev pub suspended : TaskState → TaskState
suspended (running s) = ready s
suspended s = s

unfoldable pub pendsv_save_and_switch : ℕ → ℕ → Kernel → Run (ℕ × Kernel)
pendsv_save_and_switch f current_sp k = do
  old ← load k.tasks k.current
  let saved = record old { sp = current_sp; state = suspended old.state }
  let k' = record k { tasks = write k.tasks k.current saved }
  next ← find_next f k'
  dispatch k' next
