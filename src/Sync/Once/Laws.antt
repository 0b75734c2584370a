-- ===== src/Sync/Once/Laws.antt =====
-- The initialiser runs at most once, and its end wakes each task that waits for it.
use kangaroos.Base.{
  ℕ, suc, ◌≡◌, ◌≢◌, ◌<◌, refl, Bool, true, false, ◌||◌, List, [], ◌∷◌, length, ==-false_of_ne,
  if◌then◌else◌,
}
use kangaroos.Run.{Run, ok, ◌>>=◌}
use kangaroos.Tcb.{null, load}
use kangaroos.Kernel.{Kernel, trigger_pendsv_if}
use kangaroos.WaitList.{block_and_push}
use kangaroos.WaitList.Links.{first, Links}
use kangaroos.Sync.Drain.{Drained, drain_lem}
use kangaroos.Sync.Once.{
  OnceState, unstarted, running, done, Once, enter_in, enter, finish, call_once,
}

-- The first call runs the closure. If that returns, every task that waits by then becomes ready, and the
-- `Once` is done.
pub call_once-first :
    (f : ℕ) (closure : Once → Kernel → Run (Once × Kernel)) (o o' : Once) (k k' : Kernel)
    (xs : List ℕ)
    → o.state ≡ unstarted
    → closure (record o { state = running }) k ≡ ok (o', k')
    → o'.wait_head ≡ first xs
    → Links k'.tasks xs
    → k'.current ≢ null
    → length xs < f
    → (q : Bool) × (g : Kernel) × (call_once f closure o k
        ≡ ok (record { state = done; wait_head = null }, trigger_pendsv_if q g))
      × Drained false k' xs q g
unfolding call_once enter enter_in finish
call_once-first f closure o o' k k' xs fresh returns head l on_cpu fuel =
    let (q, g, drains, d) = drain_lem f false k' xs l on_cpu fuel in
    (q, g, rw (fresh, returns, head, drains), d)

-- What happens to a `Once`, in the kernel that it happens in: a task calls `call_once`, or the closure of
-- the call that runs it returns.
pub data Event : Type 0 where
  calls : Kernel → Event
  returns : Kernel → Event

-- How many of the calls run their closure. `inside` says that a closure runs; without one nothing returns.
pub starts : ℕ → List Event → (inside : Bool) → Once → Run ℕ
starts f [] inside o = ok 0
starts f (calls k ∷ es) inside o = do
  (am_initializer, o', _) ← enter o k
  n ← starts f es (am_initializer || inside) o'
  ok (if am_initializer then suc n else n)
starts f (returns k ∷ es) false o = starts f es false o
starts f (returns k ∷ es) true o = do (o', _) ← finish f o k; starts f es false o'

-- Each call is made by a task. Where the closure returns, the tasks that called meanwhile, `ws`, still wait.
abbrev pub AllHappen : ℕ → List Event → OnceState → List ℕ → Type 0
AllHappen f [] s ws = Unit {0}
AllHappen f (calls k ∷ es) unstarted ws = (k.current ≢ null) × AllHappen f es running ws
AllHappen f (calls k ∷ es) running ws = (k.current ≢ null) × AllHappen f es running (k.current ∷ ws)
AllHappen f (calls k ∷ es) done ws = (k.current ≢ null) × AllHappen f es done ws
AllHappen f (returns k ∷ es) unstarted ws = AllHappen f es unstarted ws
AllHappen f (returns k ∷ es) running ws =
    (k.current ≢ null) × Links k.tasks ws × (length ws < f) × AllHappen f es done []
AllHappen f (returns k ∷ es) done ws = AllHappen f es done ws

abbrev pub is_inside : (s : OnceState) → Bool
is_inside unstarted = false
is_inside running = true
is_inside done = false

-- 1 if a task calls, 0 if none does.
abbrev pub called : List Event → ℕ
called [] = 0
called (calls k ∷ es) = 1
called (returns k ∷ es) = called es

-- How many of the calls should run their closure: one on an unstarted `Once`, and no other.
abbrev pub starts_in : OnceState → List Event → ℕ
starts_in unstarted es = called es
starts_in running es = 0
starts_in done es = 0

starts_from :
    (f : ℕ) (s : OnceState) (es : List Event) (ws : List ℕ) (o : Once)
    → o.state ≡ s
    → o.wait_head ≡ first ws
    → AllHappen f es s ws
    → starts f es (is_inside s) o ≡ ok (starts_in s es)
unfolding starts enter enter_in finish block_and_push load
starts_from f unstarted [] ws o e h l = refl
starts_from f running [] ws o e h l = refl
starts_from f done [] ws o e h l = refl
starts_from f done (calls k ∷ es) ws o e h l =
    rw (e, starts_from f done es ws (record { state = done; wait_head = o.wait_head }) refl h l.1)
      refl
starts_from f unstarted (calls k ∷ es) ws o e h l =
    rw (e, starts_from f running es ws (record o { state = running }) refl h l.1) refl
starts_from f running (calls k ∷ es) ws o e h l =
    let r =
      starts_from f running es (k.current ∷ ws) (record { state = running; wait_head = k.current })
        refl refl l.1 in
    rw (e, ==-false_of_ne k.current 0 l.0, r) refl
starts_from f unstarted (returns k ∷ es) ws o e h l = starts_from f unstarted es ws o e h l
starts_from f done (returns k ∷ es) ws o e h l = starts_from f done es ws o e h l
starts_from f running (returns k ∷ es) ws o e h l =
    let (q, g, drains, _) = drain_lem f false k ws l.1 l.0 l.2 in
    let r = starts_from f done es [] (record { state = done; wait_head = null }) refl refl l.3 in
    rw (h, drains, r) refl

-- In any order of calls by tasks and of returns of the closure that runs, at which the tasks that called
-- meanwhile still wait, exactly one call runs its closure if the `Once` is unstarted at first and a task calls,
-- and none otherwise. No call and no return ends in a fault.
pub starts_at_most_once :
    (f : ℕ) (es : List Event) (ws : List ℕ) (o : Once)
    → o.wait_head ≡ first ws
    → AllHappen f es o.state ws
    → starts f es (is_inside o.state) o ≡ ok (starts_in o.state es)
starts_at_most_once f es ws o h l = starts_from f o.state es ws o refl h l
