-- ===== src/Sync/Mutex.antt =====
-- kangaroos/src/sync/mutex.rs: the lock with priority inheritance. `value` is the field `data`.
pub mod Laws
pub mod Guard
use kangaroos.Base.{ℕ, Bool, true, false, not, ◌==◌, ltb, if◌then◌else◌}
use kangaroos.Run.{Run, ok, ◌>>=◌}
use kangaroos.Tcb.{Ptr, null, Tasks, load, set_priority}
use kangaroos.Kernel.{Kernel, trigger_pendsv, trigger_pendsv_if}
use kangaroos.WaitList.{block_and_push, wait_list_pop_highest}
use kangaroos.Scheduler.{unblock}

pub record Mutex (T : Type 0) : Type 0 where
  pub value : T
  pub owner : Ptr
  pub wait_head : Ptr

-- The boost of the owner in `lock`.
unfoldable pub inherit : Tasks → (owner owner_prio cur_prio : ℕ) → Tasks
inherit h owner owner_prio cur_prio =
    if ltb cur_prio owner_prio then set_priority h owner cur_prio else h

module _ {T : Type 0} where
  abbrev pub new : T → Mutex T
  new v = record { value = v; owner = null; wait_head = null }

  -- Up to the return, or to the context switch of a task that blocks.
  unfoldable pub lock : Mutex T → Kernel → Run (Mutex T × Kernel)
  unfolding inherit
  lock m k = if m.owner == null then ok (record m { owner = k.current }, k) else do
    c ← load k.tasks k.current
    o ← load k.tasks m.owner
    (head, h) ← block_and_push (inherit k.tasks m.owner o.priority c.priority) m.wait_head k.current
    ok (record m { wait_head = head }, trigger_pendsv (record k { tasks = h }))

  unfoldable pub try_lock : Mutex T → Kernel → Bool × Mutex T
  try_lock m k = if m.owner == null then (true, record m { owner = k.current }) else (false, m)

  unfoldable pub unlock_internal : ℕ → Mutex T → Kernel → Run (Mutex T × Kernel)
  unlock_internal f m k = do
    o ← load k.tasks m.owner
    let h = set_priority k.tasks m.owner o.base_priority
    if not (m.wait_head == null)
        then (do
          (next_owner, head, h') ← wait_list_pop_highest f h m.wait_head
          (need_preempt, k') ← unblock (record k { tasks = h' }) next_owner
          ok (record m { owner = next_owner; wait_head = head }, trigger_pendsv_if need_preempt k'))
        else ok (record m { owner = null }, record k { tasks = h })
