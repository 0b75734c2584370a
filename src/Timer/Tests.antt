-- ===== src/Timer/Tests.antt =====
-- Durations, and a periodic timer over two waits.
use kangaroos.Base.{◌+◌, ◌*◌, ◌%◌, ◌^◌, ◌≡◌, ◌∷◌, [], arith}
use kangaroos.Run.{ok}
use kangaroos.Timer.{from_ticks, Timer, every}
use kangaroos.Timer.Laws.{waits, every_no_drift}
use kangaroos.Samples.{busy, calm}

every_no_drift_example :
    (t : Timer) × (waits (busy ∷ calm ∷ []) (every (from_ticks 10) busy) ≡ ok t)
    × (t.next ≡ (5 + 3 * 10) % 2 ^ 64)
every_no_drift_example =
    every_no_drift (from_ticks 10) busy (busy ∷ calm ∷ [])
      ((λ e. omega (arith, e)), ((λ e. omega (arith, e)), tt))
