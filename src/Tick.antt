-- ===== src/Tick.antt =====
-- `tick` of kangaroos/src/kernel/scheduler.rs, the SysTick handler. `TICK` is a `u64` that wraps. Each
-- walk of the list of all tasks takes fuel; one more than the number of tasks is enough.
pub mod Wake
mod Tests
pub mod Peer
pub mod Requests
pub mod Laws
use kangaroos.Base.{
  ℕ, zero, suc, ◌+◌, ◌-◌, ◌%◌, ◌^◌, Bool, true, false, not, ◌&&◌, ◌||◌, ◌==◌, ltb, leb,
  if◌then◌else◌,
}
use kangaroos.Run.{Run, ok, out_of_fuel, ◌>>=◌}
use kangaroos.Tcb.{
  Ptr, null, Tcb, Tasks, TaskState, ready, running, sleeping, set_state, is_ready, is_running,
}
use kangaroos.Kernel.{Kernel}

-- `if let TaskState::Sleeping(deadline) = s && now >= deadline`.
abbrev pub due : ℕ → TaskState → Bool
due now (sleeping deadline) = leb deadline now
due now _ = false

wake_one : ℕ → Tasks → Ptr → Tasks
wake_one now h t = if due now (h t).state then set_state h t (ready (h t).time_slice) else h

preempts_one : ℕ → Tasks → Ptr → Bool
preempts_one cur_prio h t = is_ready (h t).state && ltb (h t).priority cur_prio

-- The fused pass: the flag `should_preempt`, and the memory.
pub wake : ℕ → (current now cur_prio : ℕ) → Bool → Tasks → Ptr → Run (Bool × Tasks)
wake zero current now cur_prio preempt h t = out_of_fuel
wake (suc f) current now cur_prio preempt h t =
    let h' = if t == current then h else wake_one now h t in
    let preempt' = if t == current then preempt else preempt || preempts_one cur_prio h' t in
    let rest = wake f current now cur_prio preempt' h' (h' t).all_next in
    if t == null then ok (preempt, h) else rest

-- The slice after one tick, and whether it has expired.
pub spend : (slice time_slice : ℕ) → ℕ × Bool
spend slice time_slice =
    let left = if ltb 0 slice then slice - 1 else slice in
    if left == 0 then (time_slice, true) else (left, false)

pub spend_state : TaskState → ℕ → TaskState × Bool
spend_state (running slice) time_slice =
    let (left, expired) = spend slice time_slice in (running left, expired)
spend_state s time_slice = (s, false)

-- The search for a ready task of the current priority.
pub find_peer : ℕ → Tasks → (current cur_prio : ℕ) → Ptr → Run Bool
find_peer zero h current cur_prio t = out_of_fuel
find_peer (suc f) h current cur_prio t =
    let rest = find_peer f h current cur_prio (h t).all_next in
    if t == null
    then ok false
    else (if not (t == current) && (is_ready (h t).state && ((h t).priority == cur_prio))
        then ok true
        else rest)

-- The part of `tick` behind the fused pass, where no task preempts.
pub spend_slice : ℕ → Kernel → ℕ → Run (Bool × Kernel)
spend_slice f k cur_prio = do
  let cur = k.tasks k.current
  let (s, expired) = spend_state cur.state cur.time_slice
  let k' = record k { tasks = set_state k.tasks k.current s }
  let peer = find_peer f k'.tasks k.current cur_prio k.all_tasks
  if expired then (do found ← peer; ok (found, k')) else ok (false, k')

-- `TICK.wrapping_add(1)`.
pub next_tick : ℕ → ℕ
next_tick t = (t + 1) % 2 ^ 64

-- Whether PendSV should be triggered, and the kernel.
pub tick : ℕ → Kernel → Run (Bool × Kernel)
tick f k = do
  let now = next_tick k.tick
  let k₁ = record k { tick = now }
  if (k.current == null) || not (is_running (k.tasks k.current).state) then ok (false, k₁) else do
    let cur_prio = (k.tasks k.current).priority
    (should_preempt, h) ← wake f k.current now cur_prio false k.tasks k.all_tasks
    let k₂ = record k₁ { tasks = h }
    if should_preempt then ok (true, k₂) else spend_slice f k₂ cur_prio
