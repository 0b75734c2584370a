-- ===== src/Arch/V8m.antt =====
-- The copies of `svc_first_task_sp` and `pendsv_save_and_switch` in kangaroos/src/arch/v8m.rs, which also
-- write PSPLIM. Each result has the stack pointer, PSPLIM and the kernel.
pub mod Laws
pub mod Calls
use kangaroos.Base.{ℕ, zero, suc, ◌&&◌, ltb, ◌==◌, if◌then◌else◌}
use kangaroos.Run.{Run, ok, panic, out_of_fuel, ◌>>=◌}
use kangaroos.Tcb.{Ptr, null, Tasks, TaskState, ready, running, is_ready, load, write, set_state}
use kangaroos.Kernel.{Kernel}
use kangaroos.Scheduler.{find_next, slice_of, suspended}

-- The walk of `svc_first_task_sp`.
best_ready : ℕ → Tasks → (best best_prio t : ℕ) → Run Ptr
best_ready zero h best best_prio t = out_of_fuel
best_ready (suc f) h best best_prio t =
    let p = (h t).priority in
    let wins = is_ready (h t).state && ltb p best_prio in
    let rest =
      best_ready f h (if wins then t else best) (if wins then p else best_prio) (h t).all_next in
    if t == null then ok best else rest

-- `CURRENT` is written before the task is read.
run_task : Kernel → Ptr → Run (ℕ × ℕ × Kernel)
run_task k next = do
  let k' = record k { current = next }
  task ← load k'.tasks next
  slice ← slice_of task.state
  let h = set_state k'.tasks next (running slice)
  ok ((h next).sp, (h next).stack_base, record k' { tasks = h })

pub svc_first_task_sp : ℕ → Kernel → Run (ℕ × ℕ × Kernel)
svc_first_task_sp f k = do best ← best_ready f k.tasks null 255 k.all_tasks; run_task k best

-- `(*old).sp` is written before the state is read.
pub pendsv_save_and_switch : ℕ → ℕ → Kernel → Run (ℕ × ℕ × Kernel)
pendsv_save_and_switch f current_sp k = do
  old ← load k.tasks k.current
  let h = write k.tasks k.current (record old { sp = current_sp })
  let k' = record k { tasks = set_state h k.current (suspended (h k.current).state) }
  next ← find_next f k'
  run_task k' next
