-- ===== src/Tick/Laws.antt =====
-- One tick with a task on the CPU: who wakes, when a switch is requested, and the invariant.
use kangaroos.Base.{
  ℕ, ◌≤◌, ◌<◌, ◌≡◌, ◌≢◌, refl, sym, ap, ◌∙◌, Bool, true, false, ◌&&◌, inl, inr, List, arith,
  if◌then◌else◌, ◌∈◌, length, ==-false_of_ne, Bool-cases,
}
use kangaroos.Run.{ok}
use kangaroos.Tcb.{
  Tcb, Tasks, TaskState, running, is_ready, is_running, set_state, set_state_self, set_state_ne,
  set_state-all_next,
}
use kangaroos.Kernel.{Kernel}
use kangaroos.Pick.{Nonnull-mem}
use kangaroos.WaitList.Pop.{prio}
use kangaroos.Scheduler.Chain.{Chain, Chain-frame, Chain-Nonnull}
use kangaroos.Scheduler.Invariant.{IsScheduled}
use kangaroos.Tick.{wake, find_peer, spend, spend_state, spend_slice, next_tick, tick}
use kangaroos.Tick.Wake.{woken, woken_all, preempts, wake_lem}
use kangaroos.Tick.Peer.{peer, preempts-false, preempts-true, find_peer_lem, peer-false, peer-true}

-- The effect of a tick on a kernel whose current task runs with `n` ticks left. Every other task
-- that sleeps with a deadline that has come is ready with a full time slice; the current task keeps
-- all but its remaining slice.
pub record Ticked (k : Kernel) (xs : List ℕ) (n : ℕ) (switch : Bool) (g : Kernel) : Type 0 where
  pub clock : g.tick ≡ next_tick k.tick
  pub current : g.current ≡ k.current
  pub wakes : (a : ℕ) → a ∈ xs → a ≢ k.current → g.tasks a ≡ woken (next_tick k.tick) (k.tasks a)
  pub slice : ℕ
  pub spends : g.tasks k.current ≡ record (k.tasks k.current) { state = running slice }
  -- Without a request no ready task has a higher priority,
  pub quiet :
      switch ≡ false
      → (a : ℕ) → a ∈ xs
      → a ≢ k.current
      → is_ready (g.tasks a).state ≡ true
      → prio g.tasks k.current ≤ prio g.tasks a
  -- nor, if this was the last tick of the slice, the same priority.
  pub fair :
      switch ≡ false
      → n ≤ 1
      → (a : ℕ) → a ∈ xs
      → a ≢ k.current
      → is_ready (g.tasks a).state ≡ true
      → prio g.tasks a ≢ prio g.tasks k.current
  -- A request has a cause.
  pub cause :
      switch ≡ true
      → (a : ℕ) × (a ∈ xs)
        × (a ≢ k.current)
        × (is_ready (g.tasks a).state ≡ true)
        × (prio g.tasks a ≤ prio g.tasks k.current)

with_state : (t : Tcb) (s : TaskState) → t.state ≡ s → t ≡ record t { state = s }
with_state t s e = ap (λ u. record t { state = u }) e

-- The slice expires with its last tick, and also if no tick was left.
spend_expires : (n time_slice : ℕ) → n ≤ 1 → (spend n time_slice).1 ≡ true
unfolding spend
spend_expires n time_slice h = ground arith

spend_slice_lem :
    (f : ℕ) (k : Kernel) (p n left : ℕ) (expired r : Bool)
    → (k.tasks k.current).state ≡ running n
    → spend n (k.tasks k.current).time_slice ≡ (left, expired)
    → find_peer f (set_state k.tasks k.current (running left)) k.current p k.all_tasks ≡ ok r
    → spend_slice f k p
      ≡ ok (expired && r, record k { tasks = set_state k.tasks k.current (running left) })
unfolding spend_slice spend_state
spend_slice_lem f k p n left true r e split found = rw (e, split, found)
spend_slice_lem f k p n left false r e split found = rw (e, split)

module _ (f : ℕ) (k : Kernel) (xs : List ℕ) (n : ℕ) (s : IsScheduled k xs)
    (on_cpu : (k.tasks k.current).state ≡ running n) (fuel : length xs < f) where
  cur_prio : ℕ
  cur_prio = (k.tasks k.current).priority

  awake : Tasks
  awake = woken_all k.current (next_tick k.tick) cur_prio xs k.tasks

  after_wake : Kernel
  after_wake = record k { tick = next_tick k.tick; tasks = awake }

  higher : Bool
  higher = preempts k.current (next_tick k.tick) cur_prio xs k.tasks

  awake_self : awake k.current ≡ k.tasks k.current
  unfolding awake
  awake_self = ground arith

  awake_other : (a : ℕ) → a ∈ xs → a ≢ k.current → awake a ≡ woken (next_tick k.tick) (k.tasks a)
  unfolding awake
  awake_other a m ne = ground arith

  awake-all_next : (a : ℕ) → (awake a).all_next ≡ (k.tasks a).all_next
  unfolding awake
  awake-all_next a = ground arith

  awake-prio : (a : ℕ) → (awake a).priority ≡ (k.tasks a).priority
  unfolding awake
  awake-prio a = ground arith

  awake-not-running : (a : ℕ) → a ∈ xs → a ≢ k.current → is_running (awake a).state ≡ false
  awake-not-running a m ne = rw (awake_other a m ne) (ground (arith, s.alone a))

  tick_eq : tick f k ≡ (if higher then ok (true, after_wake) else spend_slice f after_wake cur_prio)
  unfolding tick after_wake awake cur_prio higher
  tick_eq = rw (
    ==-false_of_ne k.current 0
        (Nonnull-mem k.current xs (Chain-Nonnull k.tasks xs s.chain) s.known),
    on_cpu,
    ap (wake f k.current (next_tick k.tick) (k.tasks k.current).priority false k.tasks) s.head
        ∙ wake_lem k.current (next_tick k.tick) (k.tasks k.current).priority f false k.tasks xs
            s.chain fuel,
  )

  left : ℕ
  left = (spend n (awake k.current).time_slice).0

  expired : Bool
  expired = (spend n (awake k.current).time_slice).1

  spent : Tasks
  spent = set_state awake k.current (running left)

  spent-Chain : Chain spent xs
  unfolding spent
  spent-Chain =
      Chain-frame k.tasks (set_state awake k.current (running left)) xs
        (λ a. set_state-all_next awake k.current (running left) a ∙ awake-all_next a) s.chain

  spend_eq :
      spend_slice f after_wake cur_prio
      ≡ ok (expired && peer k.current cur_prio xs spent, record after_wake { tasks = spent })
  unfolding after_wake left expired spent
  spend_eq =
      spend_slice_lem f after_wake cur_prio n _ _ _ (ap (λ t. t.state) awake_self ∙ on_cpu) refl (
        ap (find_peer f spent k.current cur_prio) s.head
        ∙ find_peer_lem k.current cur_prio spent f xs spent-Chain fuel)

  after_wake-Ticked : higher ≡ true → Ticked k xs n true after_wake
  unfolding after_wake higher cur_prio
  after_wake-Ticked e = record {
    clock = refl;
    current = refl;
    wakes = awake_other;
    slice = n;
    spends = awake_self ∙ with_state (k.tasks k.current) (running n) on_cpu;
    quiet = λ q. cc;
    fair = λ q. cc;
    cause = λ _.
        let (a, m, ne, r, p) = preempts-true k.current (next_tick k.tick) cur_prio k.tasks xs e in
        (a, m, ne, rw (awake_other a m ne) r, omega (arith, awake-prio a, awake-prio k.current));
  }

  spent_other : (a : ℕ) → a ≢ k.current → spent a ≡ awake a
  unfolding spent
  spent_other a ne = set_state_ne awake k.current (running left) a ne

  spent_self : spent k.current ≡ record (k.tasks k.current) { state = running left }
  unfolding spent
  spent_self =
      set_state_self awake k.current (running left)
      ∙ ap {B = Tcb} (λ (t : Tcb). record t { state = running left }) awake_self

  spent-prio : (a : ℕ) → (spent a).priority ≡ (k.tasks a).priority
  unfolding spent set_state
  spent-prio a = ground (arith, awake-prio a)

  after_spend : Kernel
  after_spend = record after_wake { tasks = spent }

  switch_peer : Bool
  switch_peer = expired && peer k.current cur_prio xs spent

  after_spend-Ticked : higher ≡ false → Ticked k xs n switch_peer after_spend
  unfolding after_wake after_spend higher cur_prio switch_peer expired
  after_spend-Ticked e = record {
    clock = refl;
    current = refl;
    wakes = λ a m ne. spent_other a ne ∙ awake_other a m ne;
    slice = left;
    spends = spent_self;
    quiet = λ q a m ne r.
        let r' = sym (ap (λ t. is_ready t.state) (spent_other a ne ∙ awake_other a m ne)) ∙ r in
        omega (
          arith,
          spent-prio a,
          spent-prio k.current,
          preempts-false k.current (next_tick k.tick) cur_prio k.tasks xs a e m ne r',
        );
    fair = λ q small a m ne r.
        let no_peer : peer k.current cur_prio xs spent ≡ false =
          ground (arith, spend_expires n (awake k.current).time_slice small) in
        λ same.
          peer-false k.current cur_prio spent xs a no_peer m ne r (same ∙ spent-prio k.current);
    cause = λ q.
        let (a, m, ne, r, p) = peer-true k.current cur_prio spent xs (ground arith) in
        (a, m, ne, r, omega (arith, spent-prio k.current));
  }

  after_wake-IsScheduled : IsScheduled after_wake xs
  unfolding after_wake
  after_wake-IsScheduled = record {
    chain = Chain-frame k.tasks awake xs awake-all_next s.chain;
    head = s.head;
    known = s.known;
    alone = awake-not-running;
  }

  after_spend-IsScheduled : IsScheduled after_spend xs
  unfolding after_spend after_wake
  after_spend-IsScheduled = record {
    chain = spent-Chain;
    head = s.head;
    known = s.known;
    alone = λ a m ne. rw (spent_other a ne) (awake-not-running a m ne);
  }

  -- While a task runs, a tick ends without a fault, has the effect that `Ticked` states, and keeps
  -- the invariant of the scheduler.
  pub tick_lem :
      (switch : Bool) × (g : Kernel) × (tick f k ≡ ok (switch, g))
      × Ticked k xs n switch g
      × IsScheduled g xs
  unfolding after_spend switch_peer
  tick_lem = elim (Bool-cases higher) [
    | inl e ↦ (true, after_wake, tick_eq ∙ rw e, after_wake-Ticked e, after_wake-IsScheduled)
    | inr e ↦ (
      switch_peer,
      after_spend,
      tick_eq ∙ rw e spend_eq,
      after_spend-Ticked e,
      after_spend-IsScheduled,
    )
  ]

-- While no task runs, a tick only counts.
pub tick_guard :
    (f : ℕ) (k : Kernel)
    → is_running (k.tasks k.current).state ≡ false
    → tick f k ≡ ok (false, record k { tick = next_tick k.tick })
unfolding tick
tick_guard f k e = rw e (ground arith)
