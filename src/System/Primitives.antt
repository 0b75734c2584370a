-- ===== src/System/Primitives.antt =====
-- The primitives that tasks call are sequences of steps of the system, if they return: what they share.
pub mod Locks
pub mod Slots
pub mod Flags
use kangaroos.Base.{
  ℕ, zero, suc, ◌≡◌, ◌≢◌, refl, ap, subst, Bool, true, false, ◌||◌, inl, inr, ◌==◌, Bool-cases, ltb,
  Option, if◌then◌else◌,
}
use kangaroos.Run.{Run, ok, ok-injective, >>=-eq-ok}
use kangaroos.Tcb.{Ptr, null, Tcb, Tasks, load, set_wait_ptr, set_priority}
use kangaroos.Kernel.{Kernel, trigger_pendsv, trigger_pendsv_if}
use kangaroos.WaitList.{block_and_push, wait_list_pop_highest}
use kangaroos.Scheduler.{unblock}
use kangaroos.Sync.Semaphore.{Semaphore, take, give}
use kangaroos.Sync.Mutex.{Mutex, inherit, lock, unlock_internal}
use kangaroos.Sync.Condvar.{Condvar, wait, notify_one, notify_all}
use kangaroos.Sync.Drain.{drain}
use kangaroos.Sync.Once.{OnceState, unstarted, running, done, Once, enter_in, enter, finish}
use kangaroos.System.{
  Step, blocks, pops, unblocks, reprioritises, marks, requests, Reach, here, next, Reach-trans,
}

pub third : {A B : Type 0} {r s : A × B × Kernel} → ok r ≡ ok s → r.2 ≡ s.2
third {A} {B} {r} {s} e = ap (λ (q : A × B × Kernel). q.2) (ok-injective r s e)

pub second : {A : Type 0} {r s : A × Kernel} → ok r ≡ ok s → r.1 ≡ s.1
second {A} {r} {s} e = ap (λ (q : A × Kernel). q.1) (ok-injective r s e)

module _ (f idle : ℕ) where
  pub triggers : (need : Bool) (k : Kernel) → Reach f idle k (trigger_pendsv_if need k)
  triggers true k = next here (requests refl)
  triggers false k = here

  -- A waiter is taken out of its list and woken.
  pub wakes :
      (f' : ℕ) (head : Ptr) (r : Ptr × Ptr × Tasks) (k : Kernel) (u : Bool × Kernel)
      → wait_list_pop_highest f' k.tasks head ≡ ok r
      → unblock (record k { tasks = r.2 }) r.0 ≡ ok u
      → Reach f idle k u.1
  wakes f' head r k u e w = next (next here (pops f' head r.0 r.1 r.2 e refl)) (unblocks r.0 u.0 w)

  pub wakes_and_triggers :
      (f' : ℕ) (head : Ptr) (r : Ptr × Ptr × Tasks) (k : Kernel) (u : Bool × Kernel)
      → wait_list_pop_highest f' k.tasks head ≡ ok r
      → unblock (record k { tasks = r.2 }) r.0 ≡ ok u
      → Reach f idle k (trigger_pendsv_if u.0 u.1)
  wakes_and_triggers f' head r k u e w =
      Reach-trans f idle k u.1 _ (wakes f' head r k u e w) (triggers u.0 u.1)

  pub waits :
      (head : Ptr) (r : Ptr × Tasks) (k : Kernel)
      → k.current ≢ idle
      → block_and_push k.tasks head k.current ≡ ok r
      → Reach f idle k (trigger_pendsv (record k { tasks = r.1 }))
  waits head r k ne e = next (next here (blocks head r.0 r.1 ne e refl)) (requests refl)

  -- The current task waits with a value or an address in `wait_ptr`.
  pub waits_with :
      (src : ℕ) (head : Ptr) (r : Ptr × Tasks) (k : Kernel)
      → k.current ≢ idle
      → block_and_push (set_wait_ptr k.tasks k.current src) head k.current ≡ ok r
      → Reach f idle k (trigger_pendsv (record k { tasks = r.1 }))
  waits_with src head r k ne e =
      let marked = record k { tasks = set_wait_ptr k.tasks k.current src } in
      Reach-trans f idle k marked _ (next here (marks k.current src refl))
        (waits head r marked ne e)
