-- ===== src/Sync/Handover.antt =====
-- What all primitives do to wake a waiter: `wait_list_pop_highest`, then `unblock`.
use kangaroos.Base.{
  ℕ, ◌<◌, ◌≡◌, ◌≢◌, refl, ap, ap₂, ◌∙◌, List, ◌∷◌, ◌++◌, arith, ltb, ◌∉◌, length, ==-false_of_ne,
}
use kangaroos.Run.{ok}
use kangaroos.Pick.{Picks, AtLeast, AtLeast-weaken, Picks-rest, Picks-mem, Nonnull-mem}
use kangaroos.Tcb.{
  Ptr, null, Tcb, Tasks, ready, load, set_state, set_state_self, set_state_ne, set_state_same,
}
use kangaroos.Kernel.{Kernel}
use kangaroos.WaitList.{wait_list_pop_highest}
use kangaroos.WaitList.Links.{first, Links, Links-set_state}
use kangaroos.WaitList.Pop.{prio, any_task, Pops, pop-Popped, Links-Nonnull}
use kangaroos.Scheduler.{unblock}

-- The waiter `b` of `xs` is picked and becomes ready with a full time slice; the other waiters,
-- `rest`, keep their order. Nothing else changes, but for the links between waiters.
pub record HandsOver (k : Kernel) (xs : List ℕ) (b : ℕ) (rest : List ℕ) (g : Kernel) : Type 0 where
  pub picked : Picks any_task (prio k.tasks) xs b
  pub remaining : rest ≡ picked.before ++ picked.after
  pub links : Links g.tasks rest
  pub nonnull : b ≢ null
  pub gone : b ∉ rest
  pub awake : g.tasks b ≡ record (k.tasks b) { state = ready (k.tasks b).time_slice }
  pub kept : (a : ℕ) → a ∉ rest → a ≢ b → g.tasks a ≡ k.tasks a
  pub same : (a : ℕ) → g.tasks a ≡ record (k.tasks a) { state = (g.tasks a).state }
  pub current : g.current ≡ k.current
  pub tick : g.tick ≡ k.tick
  pub all_tasks : g.all_tasks ≡ k.all_tasks
  pub pendsv : g.pendsv ≡ k.pendsv

pub HandsOver-prio :
    (k g : Kernel) (xs : List ℕ) (b : ℕ) (rest : List ℕ)
    → HandsOver k xs b rest g
    → (a : ℕ) → prio g.tasks a ≡ prio k.tasks a
HandsOver-prio k g xs b rest h a = ap (λ t. t.priority) (h.same a)

-- No waiter that is left has a higher priority than the one that was woken.
pub HandsOver-AtLeast :
    (k g : Kernel) (xs : List ℕ) (b : ℕ) (rest : List ℕ)
    → HandsOver k xs b rest g
    → AtLeast any_task (prio g.tasks) (prio g.tasks b) rest
HandsOver-AtLeast k g xs b rest h =
    AtLeast-weaken any_task (prio k.tasks) (prio g.tasks) (prio k.tasks b) (prio g.tasks b) rest
      (omega (arith, HandsOver-prio k g xs b rest h b)) (λ a i. HandsOver-prio k g xs b rest h a)
      (rw h.remaining (Picks-rest any_task (prio k.tasks) xs b h.picked))

module _ (k : Kernel) (t : Ptr) (nn : t ≢ null) (running : k.current ≢ null) where
  pub unblock-eq :
      unblock k t
      ≡ ok (
        ltb (prio k.tasks t) (prio k.tasks k.current),
        record k { tasks = set_state k.tasks t (ready (k.tasks t).time_slice) },
      )
  unfolding unblock load set_state
  unblock-eq = rw (==-false_of_ne t 0 nn, ==-false_of_ne k.current 0 running) (ground arith)

-- The two calls on a list of waiters, with their results.
pub record Wakes (f : ℕ) (k : Kernel) (xs : List ℕ) : Type 0 where
  pub task : ℕ
  pub rest : List ℕ
  pub memory : Tasks
  pub kernel : Kernel
  pub pops : wait_list_pop_highest f k.tasks (first xs) ≡ ok (task, first rest, memory)
  pub loads : load memory task ≡ ok (k.tasks task)
  pub unblocks :
      unblock (record k { tasks = memory }) task
      ≡ ok (ltb (prio k.tasks task) (prio k.tasks k.current), kernel)
  pub hands : HandsOver k xs task rest kernel

module _ (f : ℕ) (k : Kernel) (xs : List ℕ) (l : Links k.tasks xs)
    (running : k.current ≢ null) where
  module _ (p : Pops f k.tasks xs) where
    woken_kernel : Kernel
    woken_kernel = record k {
      tasks = set_state p.memory p.task (ready (p.memory p.task).time_slice);
    }

    popped_self : p.memory p.task ≡ k.tasks p.task
    popped_self = p.popped.kept p.task p.popped.gone

    popped-prio : (a : ℕ) → prio p.memory a ≡ prio k.tasks a
    popped-prio a = ap (λ t. t.priority) (p.popped.same a)

    woken_self :
        woken_kernel.tasks p.task
        ≡ record (k.tasks p.task) { state = ready (k.tasks p.task).time_slice }
    unfolding woken_kernel
    woken_self =
        set_state_self p.memory p.task _
        ∙ ap (λ (t : Tcb). record t { state = ready t.time_slice }) popped_self

    woken_ne : (a : ℕ) → a ≢ p.task → woken_kernel.tasks a ≡ p.memory a
    unfolding woken_kernel
    woken_ne a ne = set_state_ne p.memory p.task _ a ne

    woken-same :
        (a : ℕ) → woken_kernel.tasks a ≡ record (k.tasks a) { state = (woken_kernel.tasks a).state }
    unfolding woken_kernel
    woken-same a = set_state_same p.memory k.tasks p.task _ a (p.popped.same a)

    task-ne-null : p.task ≢ null
    task-ne-null =
        Nonnull-mem p.task xs (Links-Nonnull k.tasks xs l)
          (Picks-mem any_task (prio k.tasks) xs p.task p.popped.picked)

    woken-HandsOver : HandsOver k xs p.task p.rest woken_kernel
    unfolding woken_kernel
    woken-HandsOver = record {
      picked = p.popped.picked;
      remaining = p.popped.remaining;
      links = Links-set_state p.memory p.task _ p.rest p.popped.gone p.popped.links;
      nonnull = task-ne-null;
      gone = p.popped.gone;
      awake = woken_self;
      kept = λ a out ne. woken_ne a ne ∙ p.popped.kept a out;
      same = woken-same;
      current = refl;
      tick = refl;
      all_tasks = refl;
      pendsv = refl;
    }

    popped-load : load p.memory p.task ≡ ok (k.tasks p.task)
    unfolding load
    popped-load = rw (==-false_of_ne p.task 0 task-ne-null) (ap (λ t. ok t) popped_self)

    Wakes-of : Wakes f k xs
    unfolding woken_kernel
    Wakes-of = record {
      task = p.task;
      rest = p.rest;
      memory = p.memory;
      kernel = woken_kernel;
      pops = p.returns;
      loads = popped-load;
      unblocks =
          unblock-eq (record k { tasks = p.memory }) p.task task-ne-null running
          ∙ ap₂ (λ s t. ok (ltb s t, woken_kernel)) (popped-prio p.task) (popped-prio k.current);
      hands = woken-HandsOver;
    }

-- With a waiter in the list both calls end without a fault.
pub wakes :
    (f : ℕ) (k : Kernel) (x : ℕ) (xs : List ℕ)
    → Links k.tasks (x ∷ xs)
    → k.current ≢ null
    → length xs < f
    → Wakes f k (x ∷ xs)
wakes f k x xs l running fuel = Wakes-of f k (x ∷ xs) l running (pop-Popped f k.tasks x xs l fuel)
