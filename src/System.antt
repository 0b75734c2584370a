-- ===== src/System.antt =====
-- The running system: the steps that interrupts and tasks take on the kernel, in any order. The steps
-- of the primitives are the calls and the writes that they are composed of: a task that blocks itself, a
-- waiter that is taken out of its list, `unblock`, a write of a priority, of `wait_ptr` or of a link, a request
-- for a context switch.
pub mod Frames
pub mod Primitives
pub mod Traces
pub mod Boot
pub mod Safety
pub mod Main
mod Tests
use kangaroos.Base.{
  ℕ, ◌<◌, ◌≡◌, ◌≢◌, refl, sym, ap, ◌∙◌, Bool, true, false, ◌||◌, inl, inr, List, ◌∈◌, length, arith,
  ◌==◌, eq_of_==, ne_of_==, Bool-cases, ==-false_of_ne,
}
use kangaroos.Run.{Run, ok}
use kangaroos.Tcb.{
  Ptr, null, Tcb, Tasks, TaskState, ready, running, sleeping, dead, uninit, blocked, is_ready,
  is_running, set_state, set_state_ne, set_state-all_next, set_priority, set_priority-state,
  set_wait_ptr,
}
use kangaroos.Kernel.{Kernel, trigger_pendsv}
use kangaroos.WaitList.Links.{first, Links}
use kangaroos.WaitList.{block_and_push, wait_list_pop_highest}
use kangaroos.WaitList.Push.{push-eq}
use kangaroos.Scheduler.{eligible, suspended, pendsv_save_and_switch, unblock}
use kangaroos.Scheduler.Chain.{Chain-frame}
use kangaroos.Scheduler.Invariant.{IsScheduled}
use kangaroos.Scheduler.Switch.{Switched, switch_lem, resumed}
use kangaroos.Tick.{due, tick, next_tick}
use kangaroos.Tick.Wake.{woken}
use kangaroos.Tick.Laws.{Ticked, tick_lem, tick_guard}
use kangaroos.Task.{yield_now, sleep, exit, without_slice}
use kangaroos.Task.Laws.{
  left_cpu, left_cpu-IsScheduled, yield_now-ok, sleep-ok, exit-ok, current-ne-null,
}
use kangaroos.Sync.EventGroup.{cut}

-- One step, on fuel `f`, of a system whose task `idle` never sleeps, exits or blocks.
pub data Step (f idle : ℕ) (k g : Kernel) : Type 0 where
  ticks : (b : Bool) → tick f k ≡ ok (b, g) → Step f idle k g
  switches : (sp sp' : ℕ) → pendsv_save_and_switch f sp k ≡ ok (sp', g) → Step f idle k g
  yields : yield_now k ≡ ok g → Step f idle k g
  sleeps : (n : ℕ) → k.current ≢ idle → sleep n k ≡ ok g → Step f idle k g
  exits : k.current ≢ idle → exit k ≡ ok g → Step f idle k g
  blocks :
      (head p : Ptr) (h : Tasks)
      → k.current ≢ idle
      → block_and_push k.tasks head k.current ≡ ok (p, h)
      → g ≡ record k { tasks = h }
      → Step f idle k g
  pops :
      (f' : ℕ) (head b head' : Ptr) (h : Tasks)
      → wait_list_pop_highest f' k.tasks head ≡ ok (b, head', h)
      → g ≡ record k { tasks = h }
      → Step f idle k g
  unblocks : (t : Ptr) (need : Bool) → unblock k t ≡ ok (need, g) → Step f idle k g
  reprioritises : (p n : ℕ) → g ≡ record k { tasks = set_priority k.tasks p n } → Step f idle k g
  marks : (p n : ℕ) → g ≡ record k { tasks = set_wait_ptr k.tasks p n } → Step f idle k g
  relinks :
      (head prev next : Ptr)
      → g ≡ record k { tasks = (cut k.tasks head prev next).1 }
      → Step f idle k g
  requests : g ≡ trigger_pendsv k → Step f idle k g

pub data Reach (f idle : ℕ) (k : Kernel) : Kernel → Type 0 where
  here : Reach f idle k k
  next : {g h : Kernel} → Reach f idle k g → Step f idle g h → Reach f idle k h

-- The scheduler's invariant, with a task that can always run.
pub record IsLive (idle : ℕ) (xs : List ℕ) (k : Kernel) : Type 0 where
  pub scheduled : IsScheduled k xs
  pub member : idle ∈ xs
  pub can_run : eligible (k.tasks idle).state ≡ true

-- The states of a sequence behind those of another.
pub Reach-trans :
    (f idle : ℕ) (k g h : Kernel) → Reach f idle k g → Reach f idle g h → Reach f idle k h
Reach-trans f idle k g h r here = r
Reach-trans f idle k g h r (next s st) = next (Reach-trans f idle k g _ r s) st
