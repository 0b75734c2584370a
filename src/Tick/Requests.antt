-- ===== src/Tick/Requests.antt =====
-- When a tick asks for a context switch, and whom it wakes.
use kangaroos.Base.{
  ℕ, ◌≤◌, ◌<◌, ◌≡◌, ◌≢◌, refl, sym, ap, subst, ◌∙◌, Bool, true, false, List, ◌∈◌, length, arith,
}
use kangaroos.Run.{ok, ok-injective}
use kangaroos.Tcb.{running, is_ready}
use kangaroos.Kernel.{Kernel}
use kangaroos.WaitList.Pop.{prio}
use kangaroos.Scheduler.Invariant.{IsScheduled}
use kangaroos.Tick.{next_tick, tick}
use kangaroos.Tick.Wake.{woken}
use kangaroos.Tick.Laws.{Ticked, tick_lem}

ok_pair : {A B : Type 0} (x y : A × B) → ok x ≡ ok y → (x.0 ≡ y.0) × (x.1 ≡ y.1)
ok_pair x y e = let p : x ≡ y = ok-injective x y e in (ap (λ r. r.0) p, ap (λ r. r.1) p)

module _ (f : ℕ) (k g : Kernel) (xs : List ℕ) (n : ℕ) (s : IsScheduled k xs)
    (on_cpu : (k.tasks k.current).state ≡ running n) (fuel : length xs < f) where
  ticked : (switch : Bool) → tick f k ≡ ok (switch, g) → Ticked k xs n switch g
  ticked switch e =
      let (b, g', e', t, _) = tick_lem f k xs n s on_cpu fuel in
      let (same_flag, same) = ok_pair (b, g') (switch, g) (sym e' ∙ e) in
      subst (λ h. Ticked k xs n switch h) same (subst (λ c. Ticked k xs n c g') same_flag t)

  -- A tick wakes exactly the other sleepers whose deadline has come, each with a full time slice, also
  -- when a switch is requested; the other tasks but the current one are unchanged.
  pub tick_wakes :
      (switch : Bool) (a : ℕ)
      → tick f k ≡ ok (switch, g)
      → a ∈ xs
      → a ≢ k.current
      → g.tasks a ≡ woken (next_tick k.tick) (k.tasks a)
  tick_wakes switch a e m ne = (ticked switch e).wakes a m ne

  -- After a tick with no request for a switch, no ready task has a higher priority than the task on
  -- the CPU.
  pub tick_quiet :
      (a : ℕ)
      → tick f k ≡ ok (false, g)
      → a ∈ xs
      → a ≢ k.current
      → is_ready (g.tasks a).state ≡ true
      → prio g.tasks k.current ≤ prio g.tasks a
  tick_quiet a e m ne r = (ticked false e).quiet refl a m ne r

  -- After the last tick of a time slice with no request, no ready task has the same priority either.
  pub tick_fair :
      (a : ℕ)
      → n ≤ 1
      → tick f k ≡ ok (false, g)
      → a ∈ xs
      → a ≢ k.current
      → is_ready (g.tasks a).state ≡ true
      → prio g.tasks k.current < prio g.tasks a
  tick_fair a last e m ne r =
      let t = ticked false e in omega (arith, t.quiet refl a m ne r, t.fair refl last a m ne r)

  -- A request has a cause: some other task is ready and has at least the priority of the task on the
  -- CPU.
  pub tick_cause :
      tick f k ≡ ok (true, g)
      → (a : ℕ) × (a ∈ xs)
        × (a ≢ k.current)
        × (is_ready (g.tasks a).state ≡ true)
        × (prio g.tasks a ≤ prio g.tasks k.current)
  tick_cause e = (ticked true e).cause refl
