-- ===== src/System/Safety.antt =====
-- Every step keeps the scheduler's invariant, so no reachable state is without a task to run.
use kangaroos.Base.{
  ℕ, ◌<◌, ◌≡◌, ◌≢◌, refl, sym, ap, subst, ◌∙◌, Bool, true, false, inl, inr, List, ◌∈◌, length,
  arith, ◌==◌, eq_of_==, ne_of_==, Bool-cases, has, [], ◌∷◌,
}
use kangaroos.Run.{ok, ok-injective}
use kangaroos.Tcb.{
  Ptr, Tcb, Tasks, TaskState, ready, set_state-all_next, running, blocked, is_running, set_state,
  set_state_self, set_state_ne,
}
use kangaroos.Kernel.{Kernel, trigger_pendsv}
use kangaroos.WaitList.{block_and_push}
use kangaroos.WaitList.Push.{push-eq}
use kangaroos.Scheduler.{eligible, pendsv_save_and_switch, unblock}
use kangaroos.Scheduler.Chain.{Chain-frame}
use kangaroos.Scheduler.Invariant.{IsScheduled}
use kangaroos.Scheduler.Switch.{Switched, switch_lem, eligible-suspended}
use kangaroos.Tick.{tick, next_tick}
use kangaroos.Tick.Wake.{woken}
use kangaroos.Tick.Laws.{Ticked, tick_lem, tick_guard}
use kangaroos.Task.{without_slice}
use kangaroos.Task.Laws.{
  left_cpu, left_cpu-IsScheduled, yield_now-ok, sleep-ok, exit-ok, current-ne-null,
}
use kangaroos.System.Frames.{
  Frames, Frames-refl, pop-Frames, set_wait_ptr-Frames, set_priority-Frames, cut-Frames,
  unblock-eq-ok,
}
use kangaroos.System.{
  Step, ticks, switches, yields, sleeps, exits, blocks, pops, unblocks, reprioritises, marks,
  relinks, requests, Reach, here, next, IsLive,
}

running_of : (s : TaskState) → is_running s ≡ true → (n : ℕ) × (s ≡ running n)
running_of s e = ground arith

woken-eligible : (now : ℕ) (t : Tcb) → eligible t.state ≡ true → eligible (woken now t).state ≡ true
woken-eligible now t e = ground arith

without_slice-eligible : (s : TaskState) → eligible (without_slice s) ≡ eligible s
without_slice-eligible s = ground arith

-- A kernel that differs in its tasks and its flags alone.
frame-IsScheduled :
    (k g : Kernel) (xs : List ℕ)
    → IsScheduled k xs
    → g.current ≡ k.current
    → g.all_tasks ≡ k.all_tasks
    → ((a : ℕ) → (g.tasks a).all_next ≡ (k.tasks a).all_next)
    → ((a : ℕ) → a ∈ xs → a ≢ k.current → is_running (g.tasks a).state ≡ false)
    → IsScheduled g xs
frame-IsScheduled k g xs s same_current same_head same_next quiet = record {
  chain = Chain-frame k.tasks g.tasks xs same_next s.chain;
  head = same_head ∙ s.head;
  known = ap (λ c. has c xs) same_current ∙ s.known;
  alone = λ a m ne. quiet a m (λ e. ne (e ∙ sym same_current));
}

module _ (f idle : ℕ) (xs : List ℕ) (fuel : length xs < f) (k : Kernel) (v : IsLive idle xs k) where
  tick-eligible :
      (n : ℕ) (b : Bool) (g : Kernel) → Ticked k xs n b g → eligible (g.tasks idle).state ≡ true
  tick-eligible n b g t = elim (Bool-cases (idle == k.current)) [
    | inl e ↦
        ap (λ a. eligible (g.tasks a).state) (eq_of_== idle k.current e)
        ∙ ap (λ u. eligible u.state) t.spends
    | inr e ↦
        ap (λ u. eligible u.state) (t.wakes idle v.member (ne_of_== idle k.current e))
        ∙ woken-eligible (next_tick k.tick) (k.tasks idle) v.can_run
  ]

  tick-IsLive : (b : Bool) (g : Kernel) → tick f k ≡ ok (b, g) → IsLive idle xs g
  tick-IsLive b g e = elim (Bool-cases (is_running (k.tasks k.current).state)) [
    | inl r ↦
        let (n, on_cpu) = running_of (k.tasks k.current).state r in
        let (b', g', e', t, s) = tick_lem f k xs n v.scheduled on_cpu fuel in
        let same : g' ≡ g = ap (λ r. r.1) (ok-injective (b', g') (b, g) (sym e' ∙ e)) in
        subst (IsLive idle xs) same
          (record { scheduled = s; member = v.member; can_run = tick-eligible n b' g' t })
    | inr r ↦
        let same : record k { tick = next_tick k.tick } ≡ g =
          ap (λ r. r.1) (ok-injective _ (b, g) (sym (tick_guard f k r) ∙ e)) in
        subst (IsLive idle xs) same (record {
          scheduled = frame-IsScheduled k _ xs v.scheduled refl refl (λ a. refl) v.scheduled.alone;
          member = v.member;
          can_run = v.can_run;
        })
  ]

  switch-eligible :
      (sp b : ℕ) (g : Kernel) → Switched sp k xs b g → eligible (g.tasks idle).state ≡ true
  switch-eligible sp b g d = elim (Bool-cases (idle == b)) [
    | inl e ↦ ap (λ a. eligible (g.tasks a).state) (eq_of_== idle b e) ∙ ground (arith, d.running_b)
    | inr e ↦ elim (Bool-cases (idle == k.current)) [
      | inl c ↦
          let here_is = eq_of_== idle k.current c in
          ap (λ a. eligible (g.tasks a).state) here_is
          ∙ ap (λ u. eligible u.state) (d.old (λ q. ne_of_== idle b e (here_is ∙ q)))
          ∙ eligible-suspended (k.tasks k.current).state
          ∙ ap (λ a. eligible (k.tasks a).state) (sym here_is)
          ∙ v.can_run
      | inr c ↦
          ap (λ u. eligible u.state) (d.others idle (ne_of_== idle b e) (ne_of_== idle k.current c))
          ∙ v.can_run
    ]
  ]

  switch-IsLive :
      (sp sp' : ℕ) (g : Kernel) → pendsv_save_and_switch f sp k ≡ ok (sp', g) → IsLive idle xs g
  switch-IsLive sp sp' g e =
      let (b, g', e', d, s) = switch_lem f sp k xs v.scheduled fuel idle v.member v.can_run in
      let same : g' ≡ g = ap (λ r. r.1) (ok-injective _ (sp', g) (sym e' ∙ e)) in
      subst (IsLive idle xs) same
        (record { scheduled = s; member = v.member; can_run = switch-eligible sp b g' d })

  left_cpu-IsLive :
      (t : TaskState) (g : Kernel)
      → ((idle ≡ k.current) → eligible t ≡ true)
      → left_cpu t k ≡ g
      → IsLive idle xs g
  left_cpu-IsLive t g fine same = subst (IsLive idle xs) same (record {
    scheduled = left_cpu-IsScheduled k xs v.scheduled t;
    member = v.member;
    can_run = elim (Bool-cases (idle == k.current)) [
      | inl e ↦
          let is = eq_of_== idle k.current e in
          ap (λ a. eligible (set_state k.tasks k.current t a).state) is
          ∙ ap (λ u. eligible u.state) (set_state_self k.tasks k.current t)
          ∙ fine is
      | inr e ↦
          ap (λ u. eligible u.state)
            (set_state_ne k.tasks k.current t idle (ne_of_== idle k.current e))
          ∙ v.can_run
    ];
  })

  yield-eligible : idle ≡ k.current → eligible (without_slice (k.tasks k.current).state) ≡ true
  yield-eligible e =
      let can : eligible (k.tasks k.current).state ≡ true =
        ap (λ a. eligible (k.tasks a).state) (sym e) ∙ v.can_run in
      without_slice-eligible (k.tasks k.current).state ∙ can

  block-IsLive :
      (head p : Ptr) (h : Tasks) (g : Kernel)
      → k.current ≢ idle
      → block_and_push k.tasks head k.current ≡ ok (p, h)
      → g ≡ record k { tasks = h }
      → IsLive idle xs g
  block-IsLive head p h g ne e same =
      let pushed = push-eq k.tasks k.current (head ∷ []) (current-ne-null k xs v.scheduled) in
      let memory : set_state k.tasks k.current (blocked head) ≡ h =
        ap (λ r. r.1) (ok-injective (k.current, _) (p, h) (sym pushed ∙ e)) in
      let live = left_cpu-IsLive (blocked head) _ (λ is. absurd (ne (sym is))) refl in
      let s = live.scheduled in
      subst (IsLive idle xs) (ap (λ m. record k { tasks = m }) memory ∙ sym same) (record {
        scheduled = record { chain = s.chain; head = s.head; known = s.known; alone = s.alone };
        member = v.member;
        can_run = live.can_run;
      })

  -- `unblock` makes a task ready, and none running.
  unblock-IsLive :
      (t : Ptr) (need : Bool) (g : Kernel) → unblock k t ≡ ok (need, g) → IsLive idle xs g
  unblock-IsLive t need g e =
      let s = ready (k.tasks t).time_slice in
      let h = set_state k.tasks t s in
      let self = set_state_self k.tasks t s in
      let ne = set_state_ne k.tasks t s in
      subst (IsLive idle xs) (unblock-eq-ok k g t need e) (record {
        scheduled =
            frame-IsScheduled k (record k { tasks = h }) xs v.scheduled refl refl
              (set_state-all_next k.tasks t s)
              (λ a m off. elim (Bool-cases (a == t)) [
                | inl q ↦
                    ap (λ c. is_running (h c).state) (eq_of_== a t q)
                    ∙ ap (λ u. is_running u.state) self
                | inr n ↦
                    ap (λ u. is_running u.state) (ne a (ne_of_== a t n)) ∙ v.scheduled.alone a m off
              ]);
        member = v.member;
        can_run = elim (Bool-cases (idle == t)) [
          | inl q ↦
              ap (λ c. eligible (h c).state) (eq_of_== idle t q) ∙ ap (λ u. eligible u.state) self
          | inr n ↦ ap (λ u. eligible u.state) (ne idle (ne_of_== idle t n)) ∙ v.can_run
        ];
      })

  -- A write that changes neither the list of all tasks nor who runs or can run.
  frame-IsLive :
      (g : Kernel)
      → g.current ≡ k.current
      → g.all_tasks ≡ k.all_tasks
      → Frames k.tasks g.tasks
      → IsLive idle xs g
  frame-IsLive g current head fr = record {
    scheduled =
        frame-IsScheduled k g xs v.scheduled current head fr.all_next
          (λ a m ne. fr.runs a ∙ v.scheduled.alone a m ne);
    member = v.member;
    can_run = fr.can_run idle ∙ v.can_run;
  }

  memory-IsLive :
      (h : Tasks) (g : Kernel) → Frames k.tasks h → g ≡ record k { tasks = h } → IsLive idle xs g
  memory-IsLive h g fr same =
      subst (IsLive idle xs) (sym same) (frame-IsLive (record k { tasks = h }) refl refl fr)

Step-IsLive :
    (f idle : ℕ) (xs : List ℕ) (k g : Kernel)
    → length xs < f
    → IsLive idle xs k
    → Step f idle k g
    → IsLive idle xs g
Step-IsLive f idle xs k g fuel v (ticks b e) = tick-IsLive f idle xs fuel k v b g e
Step-IsLive f idle xs k g fuel v (switches sp sp' e) = switch-IsLive f idle xs fuel k v sp sp' g e
Step-IsLive f idle xs k g fuel v (yields e) =
    left_cpu-IsLive f idle xs fuel k v _ g (yield-eligible f idle xs fuel k v)
      (ok-injective _ g (sym (yield_now-ok k xs v.scheduled) ∙ e))
Step-IsLive f idle xs k g fuel v (sleeps n ne e) =
    left_cpu-IsLive f idle xs fuel k v _ g (λ is. absurd (ne (sym is)))
      (ok-injective _ g (sym (sleep-ok k xs v.scheduled n) ∙ e))
Step-IsLive f idle xs k g fuel v (exits ne e) =
    left_cpu-IsLive f idle xs fuel k v _ g (λ is. absurd (ne (sym is)))
      (ok-injective _ g (sym (exit-ok k xs v.scheduled) ∙ e))
Step-IsLive f idle xs k g fuel v (blocks head p h ne e same) =
    block-IsLive f idle xs fuel k v head p h g ne e same
Step-IsLive f idle xs k g fuel v (pops f' head b head' h e same) =
    memory-IsLive f idle xs fuel k v h g (pop-Frames f' k.tasks h head b head' e) same
Step-IsLive f idle xs k g fuel v (unblocks t need e) = unblock-IsLive f idle xs fuel k v t need g e
Step-IsLive f idle xs k g fuel v (reprioritises p n same) =
    memory-IsLive f idle xs fuel k v _ g (set_priority-Frames k.tasks p n) same
Step-IsLive f idle xs k g fuel v (marks p n same) =
    memory-IsLive f idle xs fuel k v _ g (set_wait_ptr-Frames k.tasks p n) same
Step-IsLive f idle xs k g fuel v (relinks head prev n same) =
    memory-IsLive f idle xs fuel k v _ g (cut-Frames k.tasks head prev n) same
Step-IsLive f idle xs k g fuel v (requests same) =
    subst (IsLive idle xs) (sym same)
      (frame-IsLive f idle xs fuel k v (trigger_pendsv k) refl refl (Frames-refl k.tasks))

pub Reach-IsLive :
    (f idle : ℕ) (xs : List ℕ) (k g : Kernel)
    → length xs < f
    → IsLive idle xs k
    → Reach f idle k g
    → IsLive idle xs g
Reach-IsLive f idle xs k g fuel v here = v
Reach-IsLive f idle xs k g fuel v (next {g = h} r st) =
    Step-IsLive f idle xs h g fuel (Reach-IsLive f idle xs k h fuel v r) st
