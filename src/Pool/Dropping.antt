-- ===== src/Pool/Dropping.antt =====
-- The drop of a box of kangaroos/src/mem/mod.rs implements its step on the view of a pool.
use kangaroos.Base.{
  ℕ, ◌≡◌, ◌≢◌, ◌≤◌, ◌<◌, inl, inr, refl, sym, ap, subst, ◌∙◌, true, false, false≢true, List, [],
  ◌∷◌, ◌++◌, length, ◌==◌, ltb, ==-false_of_ne, Bool-cases, if◌then◌else◌, arith, ◌∈◌, ◌∉◌, has,
  Bool, ==_self,
}
use kangaroos.Run.{ok, ok-injective}
use kangaroos.Pick.{Picks-mem}
use kangaroos.Tcb.{null, Tasks, ready, set_state, set_wait_ptr}
use kangaroos.Kernel.{Kernel, trigger_pendsv_if}
use kangaroos.WaitList.{wait_list_pop_highest}
use kangaroos.WaitList.Links.{first, Links, Links-frame}
use kangaroos.WaitList.Pop.{prio, any_task}
use kangaroos.Scheduler.{unblock}
use kangaroos.Sync.Handover.{Wakes, wakes, unblock-eq}
use kangaroos.Slots.{Slots, store, erase}
use kangaroos.Pool.{Pool, box_drop}
use kangaroos.Pool.Laws.{IsPool, drop_frees}
use kangaroos.Pool.View.{View, IsShared, DropStep, frees, hands}
use kangaroos.Slots.Waiting.{
  trigger-tasks, cons-ne-nil, nil-or-cons, enough, in_rest, Picks-of, store_self,
}

-- The memory behind the hand-off: the state of the task and its slot are written.
given : Tasks → ℕ → ℕ → Tasks
given h b i = set_state (set_wait_ptr h b i) b (ready (set_wait_ptr h b i b).time_slice)

given-eq :
    (h : Tasks) (b i a : ℕ)
    → given h b i a ≡ record (set_state h b (ready (h b).time_slice) a) {
      wait_ptr = if a == b then i else (set_state h b (ready (h b).time_slice) a).wait_ptr;
    }
unfolding given set_state set_wait_ptr
given-eq h b i a = ground arith

remains-ne : (a b : ℕ) (xs : List ℕ) → a ∈ xs → b ∉ xs → a ≢ b
remains-ne a b xs i o e = false≢true (sym o ∙ subst (λ c. has c xs ≡ true) e i)

-- The waiter that is picked gets `slot`.
module _ (f : ℕ) (k : Kernel) (xs : List ℕ) (z : Wakes f k xs) (running : k.current ≢ null)
    (slot : ℕ) where
  given_tasks : Tasks
  given_tasks = given z.memory z.task slot

  preempts : Bool
  preempts = let h = set_wait_ptr z.memory z.task slot in ltb (prio h z.task) (prio h k.current)

  given-unblock :
      unblock (record k { tasks = set_wait_ptr z.memory z.task slot }) z.task
      ≡ ok (preempts, record k { tasks = given_tasks })
  unfolding given_tasks given preempts
  given-unblock =
      unblock-eq (record k { tasks = set_wait_ptr z.memory z.task slot }) z.task z.hands.nonnull
        running

  woken-eq :
      z.kernel ≡ record k { tasks = set_state z.memory z.task (ready (z.memory z.task).time_slice) }
  woken-eq =
      ap (λ r. r.1)
        (ok-injective _ _ (
          sym z.unblocks
          ∙ unblock-eq (record k { tasks = z.memory }) z.task z.hands.nonnull running))

  given_tasks-eq :
      (a : ℕ)
      → given_tasks a ≡ record (z.kernel.tasks a) {
        wait_ptr = if a == z.task then slot else (z.kernel.tasks a).wait_ptr;
      }
  unfolding given_tasks
  given_tasks-eq a =
      given-eq z.memory z.task slot a
      ∙ ap
          (λ (q : Kernel). record (q.tasks a) {
            wait_ptr = if a == z.task then slot else (q.tasks a).wait_ptr;
          })
          (sym woken-eq)

  given-state : (a : ℕ) → (given_tasks a).state ≡ (z.kernel.tasks a).state
  given-state a = ap (λ t. t.state) (given_tasks-eq a)

  given-slot : (given_tasks z.task).wait_ptr ≡ slot
  given-slot = ap (λ t. t.wait_ptr) (given_tasks-eq z.task) ∙ rw (==_self z.task) refl

  given-other : (a : ℕ) → a ≢ z.task → (given_tasks a).wait_ptr ≡ (k.tasks a).wait_ptr
  given-other a ne =
      ap (λ t. t.wait_ptr) (given_tasks-eq a)
      ∙ kept (a == z.task) (==-false_of_ne a z.task ne)
      ∙ ap (λ t. t.wait_ptr) (z.hands.same a)
    where
      kept :
          (b : Bool)
          → b ≡ false
          → (if b then slot else (z.kernel.tasks a).wait_ptr) ≡ (z.kernel.tasks a).wait_ptr
      kept true e = cc
      kept false e = refl

  given-awake : (given_tasks z.task).state ≡ ready (k.tasks z.task).time_slice
  given-awake = given-state z.task ∙ ap (λ t. t.state) z.hands.awake

  given-Links : Links given_tasks z.rest
  given-Links = Links-frame z.kernel.tasks given_tasks z.rest (λ a i. given-state a) z.hands.links

module _ {T : Type 0} (f n : ℕ) (p : Pool T) (stack : Slots T) (k : Kernel) (v : View T)
    (is : IsShared n p stack k.tasks v) (slot : ℕ) (inside : slot < n) (used : slot ∉ v.free) where
  Drops : Type 0
  Drops =
      (p' : Pool T) × (g : Kernel) × (v' : View T) × (box_drop f n p stack k slot ≡ ok (p', g))
      × IsShared n p' stack g.tasks v'
      × DropStep k.tasks slot p' g.tasks v v'

  drops-free : v.waiters ≡ [] → Drops
  unfolding Drops box_drop
  drops-free nobody =
      let (p', returns, pool, same) =
        drop_frees n p f stack k slot v.free is.pool inside used (is.wait_head ∙ ap first nobody) in
      (
        p',
        k,
        record v { free = slot ∷ v.free },
        returns,
        record {
          pool = pool;
          wait_head = same ∙ is.wait_head;
          links = is.links;
          none_free = inl nobody;
          values = is.values;
        },
        frees nobody,
      )

  handed-IsPool :
      (val : T) (head : ℕ)
      → IsPool n (record p { nodes = store (erase p.nodes slot) slot val; wait_head = head }) v.free
  unfolding store erase
  handed-IsPool val head = record {
    small = is.pool.small;
    head = is.pool.head;
    frees = is.pool.frees;
    live = λ i lt out. elim (Bool-cases (i == slot)) [
      | inl q ↦ (val, rw q refl)
      | inr q ↦ let (u, holds) = is.pool.live i lt out in (u, rw q holds)
    ];
  }

  drops-handed :
      (w : ℕ) (ws : List ℕ) → v.waiters ≡ w ∷ ws → k.current ≢ null → length ws < f → Drops
  unfolding Drops Picks-of box_drop store erase
  drops-handed w ws e running fuel =
      let z = wakes f k w ws (subst (Links k.tasks) e is.links) running fuel in
      let b = z.task in
      let w' = Picks-of k.tasks v.waiters (w ∷ ws) b e z.hands.picked in
      let (_, old) = is.pool.live slot inside used in
      let in_pool : ltb slot n ≡ true = ground (arith, inside) in
      let some_wait : (p.wait_head == null) ≡ false =
        ap (λ q. q == null) (is.wait_head ∙ ap first e)
        ∙ ==-false_of_ne w 0 (subst (Links k.tasks) e is.links).0 in
      let parked = is.values b (Picks-mem any_task (prio k.tasks) v.waiters b w') in
      let full : v.free ≡ [] = elim is.none_free [
        | inl q ↦ absurd (cons-ne-nil w ws (sym e ∙ q))
        | inr q ↦ q
      ] in
      let nodes = store (erase p.nodes slot) slot (v.parked b) in
      let p' = record p { nodes = nodes; wait_head = first z.rest } in
      let v' = record v { waiters = w'.before ++ w'.after } in
      let g = record k { tasks = given_tasks f k (w ∷ ws) z running slot } in
      let preempt = preempts f k (w ∷ ws) z running slot in
      let after : IsShared n p' stack g.tasks v' = record {
        pool = handed-IsPool (v.parked b) (first z.rest);
        wait_head = ap first z.hands.remaining;
        links = subst (Links g.tasks) z.hands.remaining (given-Links f k (w ∷ ws) z running slot);
        none_free = inr full;
        values = λ a i.
            ap stack (
              given-other f k (w ∷ ws) z running slot a
                (remains-ne a b z.rest (subst (λ l. a ∈ l) (sym z.hands.remaining) i) z.hands.gone))
            ∙ is.values a (in_rest a b w'.before w'.after v.waiters w'.split i);
      } in
      (
        p',
        trigger_pendsv_if preempt g,
        v',
        rw
            (
              in_pool,
              old,
              some_wait,
              ap (wait_list_pop_highest f k.tasks) (is.wait_head ∙ ap first e) ∙ z.pops,
              z.loads,
              parked,
              given-unblock f k (w ∷ ws) z running slot,
            )
            refl,
        subst (λ h. IsShared n p' stack h v') (sym (trigger-tasks preempt g)) after,
        subst (λ h. DropStep k.tasks slot p' h v v') (sym (trigger-tasks preempt g))
            (hands b w' (store_self (erase p.nodes slot) slot (v.parked b))
              (given-slot f k (w ∷ ws) z running slot) (given-awake f k (w ∷ ws) z running slot)),
      )

  -- The drop of the box of a slot ends without a fault, whoever waits. Without waiters the slot is the first free
  -- one; otherwise the first waiter of the least priority number is ready and has the slot, which
  -- holds the value with which it waited. The pool stands for the view after that step.
  pub drop_refines :
      k.current ≢ null
      → length v.waiters ≤ f
      → (p' : Pool T) × (g : Kernel) × (v' : View T) × (box_drop f n p stack k slot ≡ ok (p', g))
        × IsShared n p' stack g.tasks v'
        × DropStep k.tasks slot p' g.tasks v v'
  unfolding Drops
  drop_refines running fuel = elim (nil-or-cons v.waiters) [
    | inl nobody ↦ drops-free nobody
    | inr (w, ws, e) ↦ drops-handed w ws e running (enough w ws v.waiters f e fuel)
  ]
