-- ===== src/Timer/Laws.antt =====
-- Durations round-trip where they fit, and a periodic timer does not drift.
use kangaroos.Base.{
  ℕ, ◌+◌, ◌-◌, ◌*◌, ◌/◌, ◌%◌, ◌^◌, ◌≤◌, ◌<◌, ◌≡◌, refl, ap, ◌∙◌, none, some, arith, leb, true,
  false, Bool-cases, inl, inr, ◌⊎◌, ◌≢◌, List, [], ◌∷◌, length,
}
use kangaroos.Run.{Run, ok, panic, ◌>>=◌}
use kangaroos.Kernel.{Kernel}
use kangaroos.Tcb.{sleeping, set_state_self}
use kangaroos.Scheduler.{eligible}
use kangaroos.Scheduler.Invariant.{IsScheduled}
use kangaroos.Task.Laws.{left_cpu, left_cpu-IsScheduled, sleep_until-ok, sleep_until-launched}
use kangaroos.Timer.{
  Build, checked, wrapping, u64, Duration, from_ticks, from_millis, as_millis, Instant,
  checked_duration_since, Timer, every, advance, wait,
}

u64-ok : (b : Build) (n : ℕ) → n < 2 ^ 64 → u64 b n ≡ ok n
unfolding u64
u64-ok checked n h = ground arith
u64-ok wrapping n h = ap (λ m. ok m) (omega arith)

-- Milliseconds whose product with the tick rate fits a `u64` come back, in both kinds of build.
pub millis_round_trip :
    (b : Build) (ms : ℕ) → ms * 1000 < 2 ^ 64 → (from_millis b ms >>= as_millis b) ≡ ok ms
unfolding from_millis as_millis
millis_round_trip b ms h =
    let back : ms * 1000 / 1000 ≡ ms = omega arith in
    rw (u64-ok b (ms * 1000) h, back, u64-ok b (ms * 1000) h, back)

-- Milliseconds whose product does not fit panic in a checked build, though the duration would fit.
pub from_millis-overflow : (ms : ℕ) → 2 ^ 64 ≤ ms * 1000 → from_millis checked ms ≡ panic
unfolding from_millis u64
from_millis-overflow ms h = ground arith

-- A checked difference of two instants is there exactly when the first is not earlier, and then leads
-- from the earlier to the later one.
pub checked_duration_since_lem :
    (self earlier : Instant)
    → ((d : Duration) × (checked_duration_since self earlier ≡ some d)
        × (earlier.at + d.ticks ≡ self.at))
      ⊎ ((checked_duration_since self earlier ≡ none) × (self.at < earlier.at))
unfolding checked_duration_since
checked_duration_since_lem self earlier = elim (Bool-cases (leb earlier.at self.at)) [
  | inl e ↦ inl (from_ticks (self.at - earlier.at), rw e, ground arith)
  | inr e ↦ inr (rw e, ground arith)
]

-- The timer after one wait in each of the kernels: whatever happens between the waits.
pub waits : List Kernel → Timer → Run Timer
waits [] t = ok t
waits (k ∷ ks) t = do (t', _) ← wait t k; waits ks t'

-- Each kernel has a current task.
abbrev pub AllLaunched : List Kernel → Type 0
AllLaunched [] = Unit {0}
AllLaunched (k ∷ ks) = (k.current ≢ 0) × AllLaunched ks

periodic : ℕ → ℕ → Timer
periodic next p = record { next = next % 2 ^ 64; period = some p }

waits-periodic :
    (next p : ℕ) (ks : List Kernel)
    → AllLaunched ks
    → waits ks (periodic next p) ≡ ok (periodic (next + length ks * p) p)
unfolding waits wait advance periodic
waits-periodic next p [] h = ap (λ n. ok (periodic n p)) (omega arith)
waits-periodic next p (k ∷ ks) h = rw (sleep_until-launched k (next % 2 ^ 64) h.0) (
    ap (λ (n : ℕ). waits ks (record { next = n; period = some p })) (omega arith)
    ∙ waits-periodic (next + p) p ks h.1
    ∙ ap (λ n. ok (periodic n p)) (omega arith))

-- The deadlines of a periodic timer are multiples of its period behind its start: the waits add up to
-- no drift, whatever the times at which they are made.
pub every_no_drift :
    (d : Duration) (k : Kernel) (ks : List Kernel)
    → AllLaunched ks
    → (t : Timer) × (waits ks (every d k) ≡ ok t)
      × (t.next ≡ (k.tick + (length ks + 1) * d.ticks) % 2 ^ 64)
unfolding every periodic
every_no_drift d k ks h = (
  periodic (k.tick + d.ticks + length ks * d.ticks) d.ticks,
  waits-periodic (k.tick + d.ticks) d.ticks ks h,
  omega arith,
)

-- A wait puts the calling task to sleep even if its deadline has passed: it cannot run until a tick
-- wakes it. The next deadline is that of `advance`.
pub wait_sleeps :
    (t : Timer) (k : Kernel) (xs : List ℕ)
    → IsScheduled k xs
    → (g : Kernel) × (wait t k ≡ ok (advance t t.period, g))
      × ((g.tasks k.current).state ≡ sleeping t.next)
      × (eligible (g.tasks k.current).state ≡ false)
      × (g.pendsv ≡ true)
      × IsScheduled g xs
unfolding wait
wait_sleeps t k xs s =
    let state = ap (λ u. u.state) (set_state_self k.tasks k.current (sleeping t.next)) in
    (
      left_cpu (sleeping t.next) k,
      rw (sleep_until-ok k xs s t.next),
      state,
      rw state,
      refl,
      left_cpu-IsScheduled k xs s (sleeping t.next),
    )
