-- ===== src/Sync/Condvar/Laws.antt =====
-- Notification of the tasks that wait for a condition, and the release of the mutex by a wait.
use kangaroos.Base.{
  ℕ, ◌≡◌, ◌≢◌, ◌<◌, refl, ap, ◌∙◌, Bool, false, List, [], ◌∷◌, ◌∉◌, length, ◌==◌, ltb,
  ==-false_of_ne, inl,
}
use kangaroos.Run.{ok}
use kangaroos.Tcb.{null, blocked, set_state}
use kangaroos.Kernel.{Kernel, trigger_pendsv, trigger_pendsv_if}
use kangaroos.WaitList.{block_and_push, wait_list_pop_highest}
use kangaroos.WaitList.Links.{first, Links, Links-frame}
use kangaroos.WaitList.Pop.{prio}
use kangaroos.WaitList.Push.{push-eq, push-Links}
use kangaroos.Sync.Handover.{HandsOver, wakes}
use kangaroos.Sync.Drain.{Drained, drain_lem}
use kangaroos.Sync.Mutex.{Mutex}
use kangaroos.Sync.Mutex.Laws.{IsMutex, restored_kernel, restored-state, unlock_frees}
use kangaroos.Sync.Condvar.{Condvar, wait, notify_one, notify_all}

module _ (c : Condvar) (k : Kernel) (running : k.current ≢ null) where
  -- With waiters, `notify_one` makes the one that `wait_list_pop_highest` picks ready and no other. It
  -- triggers PendSV if that waiter has a higher priority than the current task.
  pub notify_one_wakes :
      (f x : ℕ) (xs : List ℕ)
      → c.wait_head ≡ first (x ∷ xs)
      → Links k.tasks (x ∷ xs)
      → length xs < f
      → (b : ℕ) × (rest : List ℕ) × (g : Kernel) × (notify_one f c k
          ≡ ok (
            record c { wait_head = first rest },
            trigger_pendsv_if (ltb (prio k.tasks b) (prio k.tasks k.current)) g,
          ))
        × HandsOver k (x ∷ xs) b rest g
  unfolding notify_one
  notify_one_wakes f x xs head l fuel =
      let w = wakes f k x xs l running fuel in
      let some_wait : (c.wait_head == null) ≡ false =
        ap (λ p. p == null) head ∙ ==-false_of_ne x 0 l.0 in
      (
        w.task,
        w.rest,
        w.kernel,
        rw (some_wait, ap (wait_list_pop_highest f k.tasks) head ∙ w.pops, w.unblocks),
        w.hands,
      )

  -- `notify_all` ends without a fault and leaves no waiter: each task that waited is ready with a full
  -- time slice, and no other task has changed. It triggers PendSV exactly if one of those that waited
  -- has a higher priority than the current task.
  pub notify_all_wakes :
      (f : ℕ) (xs : List ℕ)
      → c.wait_head ≡ first xs
      → Links k.tasks xs
      → length xs < f
      → (q : Bool) × (g : Kernel) × (notify_all f c k
          ≡ ok (record c { wait_head = null }, trigger_pendsv_if q g))
        × Drained false k xs q g
  unfolding notify_all
  notify_all_wakes f xs head l fuel =
      let (q, g, returns, d) = drain_lem f false k xs l running fuel in
      (q, g, rw (head, returns), d)

  module _ {T : Type 0} (m : Mutex T) (xs : List ℕ) where
    parked_kernel : Kernel
    parked_kernel = record k { tasks = set_state k.tasks k.current (blocked (first xs)) }

    pub released : Kernel
    unfolding parked_kernel
    released = restored_kernel m parked_kernel

    released-state : (a : ℕ) → (released.tasks a).state ≡ (parked_kernel.tasks a).state
    unfolding released
    released-state a = restored-state m parked_kernel a

    -- A wait with a mutex for which no task waits frees the mutex and blocks the caller in front of the
    -- waiters of the condition, in one step: no notification comes between.
    pub wait_releases :
        (f : ℕ)
        → c.wait_head ≡ first xs
        → Links k.tasks xs
        → k.current ∉ xs
        → IsMutex m k []
        → m.owner ≢ null
        → (wait f c m k
            ≡ ok (
              record c { wait_head = k.current },
              record m { owner = null },
              trigger_pendsv released,
            ))
          × Links released.tasks (k.current ∷ xs)
          × IsMutex (record m { owner = null }) released []
    unfolding wait parked_kernel released
    wait_releases f head l out is held =
        let e =
          ap (λ p. block_and_push k.tasks p k.current) head
          ∙ push-eq k.tasks k.current xs running in
        let frees =
          unlock_frees m parked_kernel held f
            (record { head = is.head; links = tt; held = inl refl; apart = refl; inherits = tt }) in
        (
          rw (e, frees.0),
          Links-frame parked_kernel.tasks released.tasks (k.current ∷ xs) (λ a i. released-state a)
              (push-Links k.tasks k.current xs running out l),
          frees.1,
        )
