-- ===== src/Sync/EventGroup.antt =====
-- kangaroos/src/sync/event_group.rs: 32 flags, and two lists of tasks that wait for any or for all of
-- the flags in `wait_ptr`. The scans of `set` and `set_from_isr` are the same code, written twice.
pub mod Laws
pub mod Scan
pub mod Set
mod Tests
use Prim.Native.Nat.{bit_and, bit_or, bit_xor}
use kangaroos.Base.{ℕ, zero, suc, ◌-◌, ◌%◌, ◌^◌, Bool, true, false, not, ◌||◌, ◌==◌, if◌then◌else◌}
use kangaroos.Run.{Run, ok, out_of_fuel, ◌>>=◌}
use kangaroos.Tcb.{
  Ptr, null, Tasks, TaskState, blocked, load, set_state, set_wait_ptr, wait_next_of,
}
use kangaroos.Kernel.{Kernel, trigger_pendsv, trigger_pendsv_if}
use kangaroos.WaitList.{block_and_push}
use kangaroos.Scheduler.{unblock}

pub record EventGroup : Type 0 where
  pub bits : ℕ
  pub wait_any_head : Ptr
  pub wait_all_head : Ptr

abbrev pub new : EventGroup
new = record { bits = 0; wait_any_head = null; wait_all_head = null }

-- `bits & !mask` on a `u32`.
pub and_not : (bits mask : ℕ) → ℕ
and_not bits mask = bit_and bits (bit_xor mask (2 ^ 32 - 1))

-- `wait_ptr as u32`.
abbrev pub task_mask : Tasks → Ptr → ℕ
task_mask h t = (h t).wait_ptr % 2 ^ 32

-- `if let TaskState::Blocked { ref mut wait_next } = s { *wait_next = next }`.
abbrev relinked : TaskState → (next : Ptr) → TaskState
relinked (blocked _) next = blocked next
relinked s next = s

-- A node goes out of its list: the new head, and the memory.
unfoldable pub cut : Tasks → (head prev next : Ptr) → Ptr × Tasks
cut h head prev next =
    if prev == null then (next, h) else (head, set_state h prev (relinked (h prev).state next))

-- The bits, the head of the list, the flag `preempt`, and the kernel.
abbrev pub Scan : Type 0
Scan = ℕ × Ptr × Bool × Kernel

unfoldable pub scan_any : ℕ → (bits : ℕ) → (head prev cur : Ptr) → Bool → Kernel → Run Scan
scan_any zero bits head prev cur preempt k = out_of_fuel
scan_any (suc f) bits head prev cur preempt k =
    if cur == null then ok (bits, head, preempt, k) else do
      next ← wait_next_of (k.tasks cur).state
      let matched = bit_and bits (task_mask k.tasks cur)
      let (head', h) = cut k.tasks head prev next
      if not (matched == 0)
          then (do
            (need, k') ← unblock (record k { tasks = set_wait_ptr h cur matched }) cur
            scan_any f (and_not bits matched) head' prev next (preempt || need) k')
          else scan_any f bits head cur next preempt k

unfoldable pub scan_all : ℕ → (bits : ℕ) → (head prev cur : Ptr) → Bool → Kernel → Run Scan
scan_all zero bits head prev cur preempt k = out_of_fuel
scan_all (suc f) bits head prev cur preempt k =
    if cur == null then ok (bits, head, preempt, k) else do
      next ← wait_next_of (k.tasks cur).state
      let mask = task_mask k.tasks cur
      let (head', h) = cut k.tasks head prev next
      if bit_and bits mask == mask
          then (do
            (need, k') ← unblock (record k { tasks = h }) cur
            scan_all f (and_not bits mask) head' prev next (preempt || need) k')
          else scan_all f bits head cur next preempt k

-- The critical section of `set`, which is the whole of `set_from_isr`: the flag `preempt`, and the state.
unfoldable pub set_from_isr :
    ℕ → EventGroup → Kernel → (mask : ℕ) → Run (Bool × EventGroup × Kernel)
set_from_isr f e k mask = do
  (bits₁, any_head, preempt₁, k₁) ←
      scan_any f (bit_or e.bits mask) e.wait_any_head null e.wait_any_head false k
  (bits₂, all_head, preempt₂, k₂) ←
      scan_all f bits₁ e.wait_all_head null e.wait_all_head preempt₁ k₁
  ok (preempt₂, record { bits = bits₂; wait_any_head = any_head; wait_all_head = all_head }, k₂)

-- The new bits, and the state.
unfoldable pub set : ℕ → EventGroup → Kernel → (mask : ℕ) → Run (ℕ × EventGroup × Kernel)
set f e k mask = do
  (need_preempt, e', k') ← set_from_isr f e k mask
  ok (e'.bits, e', trigger_pendsv_if need_preempt k')

pub clear : EventGroup → (mask : ℕ) → EventGroup
clear e mask = record e { bits = and_not e.bits mask }

-- Up to the read of `wait_ptr`, or to the context switch of a task that blocks.
unfoldable pub wait_any : EventGroup → Kernel → (mask : ℕ) → Run (EventGroup × Kernel)
wait_any e k mask = do
  _ ← load k.tasks k.current
  let matched = bit_and e.bits mask
  if not (matched == 0)
      then ok (
        record e { bits = and_not e.bits matched },
        record k { tasks = set_wait_ptr k.tasks k.current matched },
      )
      else (do
        (head, h) ← block_and_push (set_wait_ptr k.tasks k.current mask) e.wait_any_head k.current
        ok (record e { wait_any_head = head }, trigger_pendsv (record k { tasks = h })))

-- The result of `wait_any`, also behind the context switch.
pub wait_any_result : Kernel → Run ℕ
wait_any_result k = do _ ← load k.tasks k.current; ok (task_mask k.tasks k.current)

unfoldable pub wait_all : EventGroup → Kernel → (mask : ℕ) → Run (EventGroup × Kernel)
wait_all e k mask =
    if bit_and e.bits mask == mask then ok (record e { bits = and_not e.bits mask }, k) else do
      _ ← load k.tasks k.current
      (head, h) ← block_and_push (set_wait_ptr k.tasks k.current mask) e.wait_all_head k.current
      ok (record e { wait_all_head = head }, trigger_pendsv (record k { tasks = h }))
