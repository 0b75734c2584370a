-- ===== src/Scheduler/Launch.antt =====
-- `svc_first_task_sp`: the first task at launch.
use kangaroos.Base.{
  ℕ, zero, suc, ◌<◌, ◌≡◌, ◌≢◌, refl, ap, ◌∙◌, Bool, true, false, ◌&&◌, ◌||◌, ◌⊎◌, inl, inr, List,
  [], ◌∷◌, arith, ◌==◌, ltb, if◌then◌else◌, ◌∈◌, length, ==-false_of_ne, Bool-cases,
}
use kangaroos.Run.{ok, null_deref}
use kangaroos.Pick.{
  Nonnull, Picks, NoneFit, best_of, best_of_zero, NoneFit-mem, Picks-mem, Nonnull-mem,
}
use kangaroos.Tcb.{
  null, Tasks, TaskState, ready, running, is_ready, is_running, load, set_state, set_state_self,
  set_state_ne, set_state-all_next,
}
use kangaroos.Kernel.{Kernel}
use kangaroos.WaitList.Links.{first}
use kangaroos.WaitList.Pop.{prio}
use kangaroos.Scheduler.{first_task, dispatch, svc_first_task_sp}
use kangaroos.Scheduler.Chain.{Chain, Chain-frame, Chain-Nonnull}
use kangaroos.Scheduler.Invariant.{IsScheduled}

-- What the walk looks for: a ready task above the priority of the idle task.
abbrev pub can_launch : Tasks → ℕ → Bool
can_launch h a = is_ready (h a).state && ltb (h a).priority 255

abbrev prio_or : Tasks → ℕ → ℕ
prio_or h b = if b == null then 255 else prio h b

wins_iff :
    (h : Tasks) (best x : ℕ)
    → (best ≡ null) ⊎ (prio h best < 255)
    → (is_ready (h x).state && ltb (h x).priority (prio_or h best))
      ≡ (can_launch h x && ((best == null) || ltb (prio h x) (prio h best)))
wins_iff h best x low = ground arith

first_task-best_of :
    (f : ℕ) (h : Tasks) (best : ℕ) (xs : List ℕ)
    → (best ≡ null) ⊎ (prio h best < 255)
    → Chain h xs
    → length xs < f
    → first_task f h best (prio_or h best) (first xs) ≡ ok (best_of (can_launch h) (prio h) best xs)
unfolding first_task best_of
first_task-best_of zero h best xs low c fuel = absurd (omega arith)
first_task-best_of (suc f) h best [] low c fuel = refl
first_task-best_of (suc f) h best (x ∷ xs) low c fuel =
    let own : prio_or h x ≡ (h x).priority = ground arith in
    rw (==-false_of_ne x 0 c.0, c.2, wins_iff h best x low)
      (elim (Bool-cases (can_launch h x && ((best == null) || ltb (prio h x) (prio h best)))) [
        | inl wins ↦
            rw wins (rw own at (first_task-best_of f h x xs (inr (ground arith)) c.3 (omega arith)))
        | inr loses ↦ rw loses (first_task-best_of f h best xs low c.3 (omega arith))
      ])

-- The kernel before launch: a well-formed list of tasks, none of which runs.
pub record IsSpawned (k : Kernel) (xs : List ℕ) : Type 0 where
  pub chain : Chain k.tasks xs
  pub head : k.all_tasks ≡ first xs
  pub idle : (a : ℕ) → a ∈ xs → is_running (k.tasks a).state ≡ false

ready_of : (s : TaskState) → is_ready s ≡ true → (n : ℕ) × (s ≡ ready n)
ready_of s e = ground arith

dispatch-null : (k : Kernel) → dispatch k null ≡ null_deref
unfolding dispatch load
dispatch-null k = refl

module _ (f : ℕ) (k : Kernel) (xs : List ℕ) (s : IsSpawned k xs) (fuel : length xs < f) where
  chosen : ℕ
  chosen = best_of (can_launch k.tasks) (prio k.tasks) 0 xs

  svc_chosen : svc_first_task_sp f k ≡ dispatch k chosen
  unfolding svc_first_task_sp chosen
  svc_chosen = rw (
      ap (first_task f k.tasks null 255) s.head
      ∙ first_task-best_of f k.tasks null xs (inl refl) s.chain fuel)

  launched : ℕ → ℕ → Kernel
  launched b n = record k { current = b; tasks = set_state k.tasks b (running n) }

  dispatch_ready :
      (b n : ℕ)
      → b ≢ null
      → (k.tasks b).state ≡ ready n
      → dispatch k b ≡ ok ((k.tasks b).sp, launched b n)
  unfolding dispatch load launched
  dispatch_ready b n nn e = rw (==-false_of_ne b 0 nn, e)

  launched-IsScheduled : (b n : ℕ) → b ∈ xs → IsScheduled (launched b n) xs
  unfolding launched
  launched-IsScheduled b n m = record {
    chain =
        Chain-frame k.tasks (launched b n).tasks xs (set_state-all_next k.tasks b (running n))
          s.chain;
    head = s.head;
    known = m;
    alone = λ a i ne. rw (set_state_ne k.tasks b (running n) a ne) (s.idle a i);
  }

  -- With a ready task above the idle priority, launch starts the first of those with the least
  -- priority number, which alone changes its state, and the scheduler's invariant holds.
  pub launch_lem :
      (i : ℕ)
      → i ∈ xs
      → can_launch k.tasks i ≡ true
      → (b : ℕ) × (g : Kernel) × (svc_first_task_sp f k ≡ ok ((k.tasks b).sp, g))
        × Picks (can_launch k.tasks) (prio k.tasks) xs b
        × (g.current ≡ b)
        × (is_running (g.tasks b).state ≡ true)
        × ((a : ℕ) → a ≢ b → g.tasks a ≡ k.tasks a)
        × IsScheduled g xs
  unfolding launched chosen
  launch_lem i m can = elim (best_of_zero (can_launch k.tasks) (prio k.tasks) xs nonnull) [
    | inl (_, none_fit) ↦
        absurd (ground (arith, NoneFit-mem (can_launch k.tasks) (prio k.tasks) i xs none_fit))
    | inr p ↦
        let m' = Picks-mem (can_launch k.tasks) (prio k.tasks) xs chosen p in
        let (n, e) = ready_of (k.tasks chosen).state (ground (arith, p.fits)) in
        (
          chosen,
          launched chosen n,
          svc_chosen ∙ dispatch_ready chosen n (Nonnull-mem chosen xs nonnull m') e,
          p,
          refl,
          rw (set_state_self k.tasks chosen (running n)),
          λ a ne. set_state_ne k.tasks chosen (running n) a ne,
          launched-IsScheduled chosen n m',
        )
  ]
    where
      nonnull : Nonnull xs
      nonnull = Chain-Nonnull k.tasks xs s.chain

  -- If every ready task has the idle priority, `u8::MAX`, launch dereferences null.
  pub launch-null_deref :
      NoneFit (can_launch k.tasks) (prio k.tasks) xs → svc_first_task_sp f k ≡ null_deref
  unfolding chosen
  launch-null_deref none_fit =
      elim (best_of_zero (can_launch k.tasks) (prio k.tasks) xs
        (Chain-Nonnull k.tasks xs s.chain)) [
          | inl (z, _) ↦ svc_chosen ∙ ap (dispatch k) z ∙ dispatch-null k
          | inr p ↦ absurd (
              ground (
                arith,
                p.fits,
                NoneFit-mem (can_launch k.tasks) (prio k.tasks) _ xs none_fit
                    (Picks-mem (can_launch k.tasks) (prio k.tasks) xs _ p),
              ))
        ]
