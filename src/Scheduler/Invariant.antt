-- ===== src/Scheduler/Invariant.antt =====
-- The state of a kernel whose scheduler runs, and the selection of the next task in it.
use kangaroos.Base.{
  ℕ, ◌<◌, ◌≡◌, ◌≢◌, sym, ap, subst, ◌∙◌, true, false, List, ◌∷◌, ◌++◌, ◌∈◌, before_of, after_of,
  split_at, length, has,
}
use kangaroos.Run.{ok, panic}
use kangaroos.Pick.{Picks, NoneFit}
use kangaroos.Tcb.{is_running}
use kangaroos.Kernel.{Kernel}
use kangaroos.WaitList.Links.{first}
use kangaroos.WaitList.Pop.{prio}
use kangaroos.Scheduler.{eligible, find_next}
use kangaroos.Scheduler.Chain.{Chain}
use kangaroos.Scheduler.FindNext.{fit, IsList, find_next-Picks, find_next-panic}
use kangaroos.Scheduler.FindNext

-- The list of all tasks is well formed, the current task is in it, and no other task is running.
pub record IsScheduled (k : Kernel) (xs : List ℕ) : Type 0 where
  pub chain : Chain k.tasks xs
  pub head : k.all_tasks ≡ first xs
  pub known : k.current ∈ xs
  pub alone : (a : ℕ) → a ∈ xs → a ≢ k.current → is_running (k.tasks a).state ≡ false

-- All tasks in the order of the round robin: from the one behind `c` round to `c`.
abbrev pub rotation : ℕ → List ℕ → List ℕ
rotation c xs = FindNext.rotation (before_of c xs) c (after_of c xs)

module _ (f : ℕ) (k : Kernel) (xs : List ℕ) (s : IsScheduled k xs) (fuel : length xs < f) where
  is_list : IsList k (before_of k.current xs) (after_of k.current xs)
  is_list =
      let e = split_at k.current xs s.known in
      record { chain = subst (Chain k.tasks) e s.chain; head = s.head ∙ ap first e }

  enough : length (before_of k.current xs ++ (k.current ∷ after_of k.current xs)) < f
  enough = subst (λ l. length l < f) (split_at k.current xs s.known) fuel

  -- With a task that can run, `find_next` returns the round-robin choice: a task that can run, of the
  -- least priority number, the first of those from the one behind the current task round to it.
  pub find_next_lem :
      (i : ℕ)
      → i ∈ xs
      → eligible (k.tasks i).state ≡ true
      → (b : ℕ) × (find_next f k ≡ ok b)
        × Picks (fit k.tasks) (prio k.tasks) (rotation k.current xs) b
  find_next_lem i mem can =
      find_next-Picks f k _ _ is_list enough i
        (sym (ap (has i) (split_at k.current xs s.known)) ∙ mem) can

  -- If no task can run, `find_next` panics.
  pub find_next_none :
      NoneFit (fit k.tasks) (prio k.tasks) (rotation k.current xs) → find_next f k ≡ panic
  find_next_none none_fit = find_next-panic f k _ _ is_list enough none_fit

pub has-rotation : (i c : ℕ) (xs : List ℕ) → c ∈ xs → has i (rotation c xs) ≡ has i xs
has-rotation i c xs m =
    FindNext.has-rotation i (before_of c xs) c (after_of c xs) ∙ sym (ap (has i) (split_at c xs m))
