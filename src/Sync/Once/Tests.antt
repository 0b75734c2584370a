-- ===== src/Sync/Once/Tests.antt =====
-- A `Once` with two tasks that wait, and two calls on a new one.
use kangaroos.Base.{◌≡◌, refl, Bool, false, List, [], ◌∷◌, arith}
use kangaroos.Run.{Run, ok}
use kangaroos.Kernel.{Kernel, trigger_pendsv_if}
use kangaroos.Sync.Drain.{Drained}
use kangaroos.Sync.Once.{running, done, Once, new, call_once}
use kangaroos.Sync.Once.Laws.{Event, calls, returns, call_once-first, starts, starts_at_most_once}
use kangaroos.Samples.{waiting, busy, calm}

-- While it runs, the tasks 1 and 2 come to wait.
abbrev slow_closure : Once → Kernel → Run (Once × Kernel)
slow_closure o k = ok (record o { wait_head = 1 }, waiting)

call_once-first_example :
    (q : Bool) × (g : Kernel) × (call_once 3 slow_closure new busy
      ≡ ok (record { state = done; wait_head = 0 }, trigger_pendsv_if q g))
    × Drained false waiting (1 ∷ 2 ∷ []) q g
call_once-first_example =
    call_once-first 3 slow_closure new (record { state = running; wait_head = 1 }) busy waiting
      (1 ∷ 2 ∷ []) refl refl refl (ground arith) (λ e. omega (arith, e)) (omega arith)

-- A call runs its closure, the tasks 2 and 1 come and wait until it returns, and one more call follows.
abbrev from_1 : Kernel
from_1 = record busy { current = 1 }

abbrev history : List Event
history = calls from_1 ∷ calls busy ∷ calls from_1 ∷ returns waiting ∷ calls calm ∷ []

starts_at_most_once_example : starts 3 history false new ≡ ok 1
starts_at_most_once_example = starts_at_most_once 3 history [] new refl (
  (λ e. omega (arith, e)),
  (
    (λ e. omega (arith, e)),
    (
      (λ e. omega (arith, e)),
      ((λ e. omega (arith, e)), ground arith, omega arith, ((λ e. omega (arith, e)), tt)),
    ),
  ),
)
