-- ===== src/Sync/Condvar/Tests.antt =====
-- A condition with two tasks that wait.
use kangaroos.Base.{ℕ, ◌≡◌, refl, Bool, false, [], ◌∷◌, arith, inl}
use kangaroos.Run.{ok}
use kangaroos.Tcb.{null}
use kangaroos.Kernel.{Kernel, trigger_pendsv, trigger_pendsv_if}
use kangaroos.WaitList.Links.{Links}
use kangaroos.Sync.Drain.{Drained}
use kangaroos.Sync.Mutex.{Mutex}
use kangaroos.Sync.Mutex.Laws.{IsMutex}
use kangaroos.Sync.Condvar.{Condvar, wait, notify_all}
use kangaroos.Sync.Condvar.Laws.{notify_all_wakes, released, wait_releases}
use kangaroos.Samples.{waiting}

abbrev condition : Condvar
condition = record { wait_head = 1 }

notify_all_wakes_example :
    (q : Bool) × (g : Kernel) × (notify_all 3 condition waiting
      ≡ ok (record { wait_head = null }, trigger_pendsv_if q g))
    × Drained false waiting (1 ∷ 2 ∷ []) q g
notify_all_wakes_example =
    notify_all_wakes condition waiting (λ e. omega (arith, e)) 3 (1 ∷ 2 ∷ []) refl (ground arith)
      (omega arith)

-- Held by the current task.
abbrev own : Mutex ℕ
own = record { value = 5; owner = 3; wait_head = null }

wait_releases_example :
    (wait 1 condition own waiting
      ≡ ok (
        record { wait_head = 3 },
        record own { owner = null },
        trigger_pendsv (released condition waiting (λ e. omega (arith, e)) own (1 ∷ 2 ∷ [])),
      ))
    × Links
        (released condition waiting (λ e. omega (arith, e)) own (1 ∷ 2 ∷ [])).tasks
        (3 ∷ 1 ∷ 2 ∷ [])
    × IsMutex
        (record own { owner = null })
        (released condition waiting (λ e. omega (arith, e)) own (1 ∷ 2 ∷ []))
        []
wait_releases_example =
    wait_releases condition waiting (λ e. omega (arith, e)) own (1 ∷ 2 ∷ []) 1 refl (ground arith)
      refl (record { head = refl; links = tt; held = inl refl; apart = refl; inherits = tt })
      (λ e. omega (arith, e))
