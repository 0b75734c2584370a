-- ===== src/Sync/Semaphore/Laws.antt =====
-- The semaphore against an abstract one: a number of tokens, or a list of waiting tasks.
use kangaroos.Base.{
  ℕ, min, ◌+◌, ◌-◌, ◌≤◌, ◌<◌, ◌≡◌, ◌≢◌, refl, ap, ◌∙◌, ◌⊎◌, inl, inr, true, false, List, [], ◌∷◌,
  arith, ltb, ◌∉◌, length, ◌==◌, ==-false_of_ne, Bool-cases,
}
use kangaroos.Run.{ok}
use kangaroos.Tcb.{null, blocked, set_state}
use kangaroos.Kernel.{Kernel, trigger_pendsv, trigger_pendsv_if}
use kangaroos.WaitList.{wait_list_pop_highest, block_and_push}
use kangaroos.WaitList.Links.{first, Links}
use kangaroos.WaitList.Pop.{prio}
use kangaroos.WaitList.Push.{push-eq, push-Links}
use kangaroos.Sync.Handover.{HandsOver, wakes}
use kangaroos.Sync.Semaphore.{Semaphore, take, give}

-- The waiters `xs` are well linked, nobody waits while there is a token, and the ceiling holds.
pub record IsSemaphore (s : Semaphore) (k : Kernel) (xs : List ℕ) : Type 0 where
  pub head : s.wait_head ≡ first xs
  pub links : Links k.tasks xs
  pub empty : (xs ≡ []) ⊎ (s.count ≡ 0)
  pub ceiling : s.count ≤ s.max

module _ (s : Semaphore) (k : Kernel) where
  -- A list of waiters is not empty at the head pointer.
  waiting : (x : ℕ) (xs : List ℕ) → IsSemaphore s k (x ∷ xs) → (s.wait_head == null) ≡ false
  waiting x xs is = ap (λ p. p == null) is.head ∙ ==-false_of_ne x 0 is.links.0

  -- `give` with tasks that wait: the token goes to the waiter that `wait_list_pop_highest` picks, and
  -- the count stays. PendSV is triggered if the waiter has a higher priority than the current task.
  pub give_wakes :
      (f : ℕ) (x : ℕ) (xs : List ℕ)
      → IsSemaphore s k (x ∷ xs)
      → k.current ≢ null
      → length xs < f
      → (b : ℕ) × (rest : List ℕ) × (g : Kernel) × (give f s k
          ≡ ok (
            record s { wait_head = first rest },
            trigger_pendsv_if (ltb (prio k.tasks b) (prio k.tasks k.current)) g,
          ))
        × HandsOver k (x ∷ xs) b rest g
        × IsSemaphore (record s { wait_head = first rest }) g rest
  unfolding give
  give_wakes f x xs is running fuel =
      let w = wakes f k x xs is.links running fuel in
      let pops = ap (wait_list_pop_highest f k.tasks) is.head ∙ w.pops in
      (
        w.task,
        w.rest,
        w.kernel,
        rw (waiting x xs is, pops, w.unblocks),
        w.hands,
        record {
          head = refl;
          links = w.hands.links;
          empty = inr (ground (arith, is.empty));
          ceiling = is.ceiling;
        },
      )

  -- `give` with no task that waits adds a token, up to the ceiling.
  pub give_counts :
      (f : ℕ)
      → IsSemaphore s k []
      → (give f s k ≡ ok (record s { count = min (s.count + 1) s.max }, k))
        × IsSemaphore (record s { count = min (s.count + 1) s.max }) k []
  unfolding give
  give_counts f is =
      let nobody : (s.wait_head == null) ≡ true = ap (λ p. p == null) is.head in
      (
        rw nobody (elim (Bool-cases (ltb s.count s.max)) [
          | inl room ↦ rw room (ap (λ c. ok (record s { count = c }, k)) (ground arith))
          | inr full ↦
              rw full (ap (λ c. ok (record s { count = c }, k)) (ground (arith, is.ceiling)))
        ]),
        record { head = is.head; links = tt; empty = inl refl; ceiling = omega arith },
      )

  -- `take` with a token takes it and changes nothing else.
  pub take_counts :
      (xs : List ℕ)
      → IsSemaphore s k xs
      → 0 < s.count
      → (take s k ≡ ok (record s { count = s.count - 1 }, k))
        × IsSemaphore (record s { count = s.count - 1 }) k xs
  unfolding take
  take_counts xs is pos = (
    ground arith,
    record {
      head = is.head;
      links = is.links;
      empty = inl (ground (arith, is.empty));
      ceiling = omega (arith, is.ceiling);
    },
  )

  -- `take` without a token blocks the current task in front of the waiters and triggers PendSV.
  pub take_blocks :
      (xs : List ℕ)
      → IsSemaphore s k xs
      → s.count ≡ 0
      → k.current ≢ null
      → k.current ∉ xs
      → let h = set_state k.tasks k.current (blocked (first xs)) in
        (take s k
          ≡ ok (record s { wait_head = k.current }, trigger_pendsv (record k { tasks = h })))
        × IsSemaphore (record s { wait_head = k.current }) (record k { tasks = h }) (k.current ∷ xs)
  unfolding take
  take_blocks xs is none_left running out =
      let e =
        ap (λ p. block_and_push k.tasks p k.current) is.head
        ∙ push-eq k.tasks k.current xs running in
      (
        rw (none_left, e),
        record {
          head = refl;
          links = push-Links k.tasks k.current xs running out is.links;
          empty = inr none_left;
          ceiling = is.ceiling;
        },
      )
