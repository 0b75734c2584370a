-- ===== src/Scheduler/Switch.antt =====
-- `pendsv_save_and_switch`: the round-robin winner runs next, and it alone.
use kangaroos.Base.{
  ℕ, ◌<◌, ◌≡◌, ◌≢◌, refl, sym, ap, ◌∙◌, true, false, List, arith, ◌==◌, ◌∈◌, length, ==-false_of_ne,
  eq_of_==, ne_of_==, inl, inr, Bool-cases, if◌then◌else◌,
}
use kangaroos.Run.{ok, ◌>>=◌}
use kangaroos.Pick.{Picks, Picks-ext, Picks-mem, Nonnull-mem}
use kangaroos.Tcb.{
  null, TaskState, ready, running, is_running, write, write_self, write_ne, load, set_state,
  set_state_self, set_state-all_next,
}
use kangaroos.Kernel.{Kernel}
use kangaroos.WaitList.Pop.{prio}
use kangaroos.Scheduler.{eligible, suspended, find_next, dispatch, pendsv_save_and_switch}
use kangaroos.Scheduler.Chain.{Chain-frame, Chain-Nonnull}
use kangaroos.Scheduler.FindNext.{fit}
use kangaroos.Scheduler.Invariant.{IsScheduled, rotation, find_next_lem, has-rotation}

suspended-not-running : (s : TaskState) → is_running (suspended s) ≡ false
suspended-not-running s = ground arith

pub eligible-suspended : (s : TaskState) → eligible (suspended s) ≡ eligible s
eligible-suspended s = ground arith

ready_of_eligible :
    (s : TaskState) → eligible s ≡ true → is_running s ≡ false → (n : ℕ) × (s ≡ ready n)
ready_of_eligible s e r = ground arith

-- What the saved context of the old task changes.
saved : ℕ → Kernel → Kernel
saved sp k =
    let old = k.tasks k.current in
    record k {
      tasks = write k.tasks k.current (record old { sp = sp; state = suspended old.state });
    }

abbrev pub resumed : TaskState → TaskState
resumed (ready n) = running n
resumed s = s

-- The result of a switch to `b`: `b` is a round-robin winner, it is the current task and runs with
-- the rest of its time slice; the old task keeps its stack pointer and, if it was running, is ready
-- with the rest of its time slice. Nothing else changes.
pub record Switched (sp : ℕ) (k : Kernel) (xs : List ℕ) (b : ℕ) (g : Kernel) : Type 0 where
  pub picked : Picks (fit k.tasks) (prio k.tasks) (rotation k.current xs) b
  pub current : g.current ≡ b
  pub runs : (g.tasks b).state ≡ resumed (k.tasks b).state
  pub running_b : is_running (g.tasks b).state ≡ true
  pub old :
      k.current ≢ b
      → g.tasks k.current
        ≡ record (k.tasks k.current) { sp = sp; state = suspended (k.tasks k.current).state }
  pub stacks : (a : ℕ) → (g.tasks a).sp ≡ (if a == k.current then sp else (k.tasks a).sp)
  pub others : (a : ℕ) → a ≢ b → a ≢ k.current → g.tasks a ≡ k.tasks a
  pub tick : g.tick ≡ k.tick
  pub all_tasks : g.all_tasks ≡ k.all_tasks

resumed-suspended : (s : TaskState) (n : ℕ) → suspended s ≡ ready n → running n ≡ resumed s
resumed-suspended s n e = ground arith

module _ (sp : ℕ) (k : Kernel) where
  saved-all_next : (a : ℕ) → ((saved sp k).tasks a).all_next ≡ (k.tasks a).all_next
  unfolding saved write
  saved-all_next a = ground arith

  saved-eligible : (a : ℕ) → fit (saved sp k).tasks a ≡ fit k.tasks a
  unfolding saved write
  saved-eligible a = elim (Bool-cases (a == k.current)) [
    | inl e ↦ rw (e, eq_of_== a k.current e) (eligible-suspended (k.tasks k.current).state)
    | inr n ↦ rw n
  ]

  saved-prio : (a : ℕ) → prio (saved sp k).tasks a ≡ prio k.tasks a
  unfolding saved write
  saved-prio a = ground arith

  saved-tick : (saved sp k).tick ≡ k.tick
  unfolding saved
  saved-tick = refl

  saved-all_tasks : (saved sp k).all_tasks ≡ k.all_tasks
  unfolding saved
  saved-all_tasks = refl

  saved_self :
      (saved sp k).tasks k.current
      ≡ record (k.tasks k.current) { sp = sp; state = suspended (k.tasks k.current).state }
  unfolding saved
  saved_self = write_self k.tasks k.current _

  saved_ne : (a : ℕ) → a ≢ k.current → (saved sp k).tasks a ≡ k.tasks a
  unfolding saved
  saved_ne a n = write_ne k.tasks k.current _ a n

module _ (f sp : ℕ) (k : Kernel) (xs : List ℕ) (s : IsScheduled k xs) (fuel : length xs < f) where
  saved-not-running : (a : ℕ) → a ∈ xs → is_running ((saved sp k).tasks a).state ≡ false
  saved-not-running a m = elim (Bool-cases (a == k.current)) [
    | inl e ↦
        rw (eq_of_== a k.current e, saved_self sp k)
          (suspended-not-running (k.tasks k.current).state)
    | inr n ↦ rw (saved_ne sp k a (ne_of_== a k.current n)) (s.alone a m (ne_of_== a k.current n))
  ]

  saved-IsScheduled : IsScheduled (saved sp k) xs
  unfolding saved
  saved-IsScheduled = record {
    chain = Chain-frame k.tasks (saved sp k).tasks xs (saved-all_next sp k) s.chain;
    head = s.head;
    known = s.known;
    alone = λ a m n. saved-not-running a m;
  }

  -- The memory and the globals after the switch to `b`, with `n` ticks left.
  switched : ℕ → ℕ → Kernel
  switched b n = record (saved sp k) {
    current = b;
    tasks = set_state (saved sp k).tasks b (running n);
  }

  dispatch_lem :
      (b n : ℕ)
      → b ≢ null
      → ((saved sp k).tasks b).state ≡ ready n
      → dispatch (saved sp k) b ≡ ok (((saved sp k).tasks b).sp, switched b n)
  unfolding dispatch load switched
  dispatch_lem b n nn e = rw (==-false_of_ne b 0 nn, e)

  runs_lem :
      (b n : ℕ) → ((saved sp k).tasks b).state ≡ ready n → running n ≡ resumed (k.tasks b).state
  runs_lem b n e = elim (Bool-cases (b == k.current)) [
    | inl is ↦
        let h : suspended (k.tasks k.current).state ≡ ready n =
          ap (λ t. t.state) (sym (saved_self sp k))
          ∙ ap (λ a. ((saved sp k).tasks a).state) (sym (eq_of_== b k.current is))
          ∙ e in
        rw (eq_of_== b k.current is) (resumed-suspended (k.tasks k.current).state n h)
    | inr n' ↦
        let h : (k.tasks b).state ≡ ready n =
          ap (λ t. t.state) (sym (saved_ne sp k b (ne_of_== b k.current n'))) ∙ e in
        rw h
  ]

  switched-stacks :
      (b n a : ℕ) → ((switched b n).tasks a).sp ≡ (if a == k.current then sp else (k.tasks a).sp)
  unfolding switched saved set_state write
  switched-stacks b n a = ground arith

  switched-Switched :
      (b n : ℕ)
      → Picks (fit k.tasks) (prio k.tasks) (rotation k.current xs) b
      → ((saved sp k).tasks b).state ≡ ready n
      → Switched sp k xs b (switched b n)
  unfolding switched set_state
  switched-Switched b n p e = record {
    picked = p;
    current = refl;
    runs = rw (write_self (saved sp k).tasks b) (runs_lem b n e);
    running_b = rw (write_self (saved sp k).tasks b);
    old = λ apart. write_ne (saved sp k).tasks b _ k.current apart ∙ saved_self sp k;
    stacks = switched-stacks b n;
    others = λ a n₁ n₂. write_ne (saved sp k).tasks b _ a n₁ ∙ saved_ne sp k a n₂;
    tick = saved-tick sp k;
    all_tasks = saved-all_tasks sp k;
  }

  switched-IsScheduled : (b n : ℕ) → b ∈ xs → IsScheduled (switched b n) xs
  unfolding switched set_state
  switched-IsScheduled b n m = record {
    chain =
        Chain-frame (saved sp k).tasks (switched b n).tasks xs
          (set_state-all_next (saved sp k).tasks b (running n)) saved-IsScheduled.chain;
    head = saved-all_tasks sp k ∙ s.head;
    known = m;
    alone = λ a i ne. rw (write_ne (saved sp k).tasks b _ a ne) (saved-not-running a i);
  }

  switched-sp : (b n : ℕ) → ((saved sp k).tasks b).sp ≡ ((switched b n).tasks b).sp
  unfolding switched
  switched-sp b n = ap (λ t. t.sp) (sym (set_state_self (saved sp k).tasks b (running n)))

  switch_saved :
      pendsv_save_and_switch f sp k
      ≡ (find_next f (saved sp k) >>= λ next. dispatch (saved sp k) next)
  unfolding pendsv_save_and_switch saved load
  switch_saved = rw (
      ==-false_of_ne k.current 0
        (Nonnull-mem k.current xs (Chain-Nonnull k.tasks xs s.chain) s.known))

  switch_to :
      (b : ℕ)
      → find_next f (saved sp k) ≡ ok b
      → Picks (fit (saved sp k).tasks) (prio (saved sp k).tasks) (rotation k.current xs) b
      → (g : Kernel) × (pendsv_save_and_switch f sp k ≡ ok ((g.tasks b).sp, g))
        × Switched sp k xs b g
        × IsScheduled g xs
  switch_to b found p =
      let m : b ∈ xs = sym (has-rotation b k.current xs s.known) ∙ Picks-mem _ _ _ b p in
      let nn = Nonnull-mem b xs (Chain-Nonnull k.tasks xs s.chain) m in
      let (n, e) = ready_of_eligible ((saved sp k).tasks b).state p.fits (saved-not-running b m) in
      let p' : Picks (fit k.tasks) (prio k.tasks) (rotation k.current xs) b =
        Picks-ext _ _ _ _ (rotation k.current xs) b (saved-eligible sp k) (saved-prio sp k) p in
      (
        switched b n,
        switch_saved
            ∙ rw found (dispatch_lem b n nn e ∙ ap (λ t. ok (t, switched b n)) (switched-sp b n)),
        switched-Switched b n p' e,
        switched-IsScheduled b n m,
      )

-- With a task that can run, the switch neither panics nor faults. It returns the stack pointer of a
-- round-robin winner, which alone is running afterwards, and the invariant holds again.
pub switch_lem :
    (f sp : ℕ) (k : Kernel) (xs : List ℕ)
    → IsScheduled k xs
    → length xs < f
    → (i : ℕ) → i ∈ xs
    → eligible (k.tasks i).state ≡ true
    → (b : ℕ) × (g : Kernel) × (pendsv_save_and_switch f sp k ≡ ok ((g.tasks b).sp, g))
      × Switched sp k xs b g
      × IsScheduled g xs
unfolding saved
switch_lem f sp k xs s fuel i m can =
    let s' = saved-IsScheduled f sp k xs s fuel in
    let (b, found, p) = find_next_lem f (saved sp k) xs s' fuel i m (saved-eligible sp k i ∙ can) in
    let (g, returns, done, again) = switch_to f sp k xs s fuel b found p in
    (b, g, returns, done, again)
