-- ===== src/System/Boot.antt =====
-- From launch on, in whatever order interrupts and tasks take their steps.
use kangaroos.Base.{
  ℕ, ◌<◌, ◌≡◌, sym, ap, subst, ◌∙◌, true, false≢true, inl, inr, List, ◌∈◌, length, arith, ◌==◌,
  eq_of_==, ne_of_==, Bool-cases,
}
use kangaroos.Run.{ok, ok-injective}
use kangaroos.Tcb.{is_ready, is_running}
use kangaroos.Kernel.{Kernel}
use kangaroos.Scheduler.{eligible, svc_first_task_sp, pendsv_save_and_switch}
use kangaroos.Scheduler.Switch.{switch_lem}
use kangaroos.Scheduler.Launch.{IsSpawned, can_launch, launch_lem}
use kangaroos.System.{IsLive}
use kangaroos.System.Traces.{Trace, Trace-Reach}
use kangaroos.System.Safety.{Reach-IsLive}

module _ (f idle i : ℕ) (xs : List ℕ) (k g h : Kernel) (sp : ℕ) (spawned : IsSpawned k xs)
    (fuel : length xs < f) (member : idle ∈ xs) (idle_ready : is_ready (k.tasks idle).state ≡ true)
    (other : i ∈ xs) (can : can_launch k.tasks i ≡ true)
    (launched : svc_first_task_sp f k ≡ ok (sp, g)) where
  launched-IsLive : IsLive idle xs g
  launched-IsLive =
      let (b, g', e, p, c, on, same, sch) = launch_lem f k xs spawned fuel i other can in
      let live : IsLive idle xs g' = record {
        scheduled = sch;
        member = member;
        can_run = elim (Bool-cases (idle == b)) [
          | inl q ↦ ap (λ a. eligible (g'.tasks a).state) (eq_of_== idle b q) ∙ ground (arith, on)
          | inr q ↦
              ap (λ u. eligible u.state) (same idle (ne_of_== idle b q))
              ∙ ground (arith, idle_ready)
        ];
      } in
      subst (IsLive idle xs) (ap (λ r. r.1) (ok-injective _ (sp, g) (sym e ∙ launched))) live

  -- After any sequence of ticks, context switches and calls of the primitives that return, by interrupts and
  -- tasks, from a launch at which the idle task and a task above its priority were ready, a running task is the
  -- current one: no two tasks run at once. The idle task makes no call that may block.
  pub boot_alone :
      Trace f idle g h → (a : ℕ) → a ∈ xs → is_running (h.tasks a).state ≡ true → a ≡ h.current
  boot_alone r a m on =
      let v = Reach-IsLive f idle xs g h fuel launched-IsLive (Trace-Reach f idle g h r) in
      elim (Bool-cases (a == h.current)) [
        | inl e ↦ eq_of_== a h.current e
        | inr e ↦ absurd (false≢true (sym (v.scheduled.alone a m (ne_of_== a h.current e)) ∙ on))
      ]

  -- After every such sequence a context switch neither panics nor faults, and ends with the current task
  -- running.
  pub boot_switches :
      Trace f idle g h
      → (old_sp : ℕ)
      → (new_sp : ℕ) × (j : Kernel) × (pendsv_save_and_switch f old_sp h ≡ ok (new_sp, j))
        × (is_running (j.tasks j.current).state ≡ true)
  boot_switches r old_sp =
      let v = Reach-IsLive f idle xs g h fuel launched-IsLive (Trace-Reach f idle g h r) in
      let (b, j, e, d, _) = switch_lem f old_sp h xs v.scheduled fuel idle v.member v.can_run in
      ((j.tasks b).sp, j, e, ap (λ c. is_running (j.tasks c).state) d.current ∙ d.running_b)
