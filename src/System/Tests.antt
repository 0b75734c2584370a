-- ===== src/System/Tests.antt =====
-- A launch of three tasks, a yield, and a `give` on a semaphore.
use kangaroos.Base.{false, ◌∈◌, List, [], ◌∷◌, ℕ, ◌≡◌, refl, true, arith}
use kangaroos.Run.{ok}
use kangaroos.Tcb.{running, set_state, is_running, load, write}
use kangaroos.Kernel.{Kernel, trigger_pendsv}
use kangaroos.Scheduler.{svc_first_task_sp, pendsv_save_and_switch}
use kangaroos.Task.{yield_now}
use kangaroos.System.{yields}
use kangaroos.System.Traces.{Trace, start, then_act, steps, gives}
use kangaroos.Sync.Semaphore.{new, give}
use kangaroos.System.Boot.{boot_alone}
use kangaroos.Scheduler.Tests.{launched_spawned}
use kangaroos.System.Main.{main_body-switches}
use kangaroos.Timer.{checked}
use kangaroos.Boot.Start.{Call}
use kangaroos.Boot.Main.{main_body}
use kangaroos.Boot.Samples.{empty, t₁, t₂, idle_storage, idle-Fits, two-FitInTurn}
use kangaroos.Samples.{ids, spawned, spawned-IsSpawned}

abbrev launched : Kernel
launched = record spawned { current = 2; tasks = set_state spawned.tasks 2 (running 4) }

abbrev yielded : Kernel
yielded = trigger_pendsv (record launched { tasks = set_state launched.tasks 2 (running 0) })

yields_launched : Trace 4 3 launched yielded
unfolding yield_now load set_state write give
yields_launched = then_act (then_act start (steps (yields refl))) (gives 1 (new 0 1) (new 1 1) refl)

task_2_runs : is_running (yielded.tasks 2).state ≡ true
unfolding set_state write
task_2_runs = refl

boot_alone_example : 2 ≡ yielded.current
boot_alone_example =
    boot_alone 4 3 1 ids spawned launched yielded 0 spawned-IsSpawned (omega arith) refl refl refl
      refl launched_spawned yields_launched 2 refl task_2_runs

main_body-switches_example :
    (cs : List Call) × (m : ℕ → ℕ) × (k : Kernel) × (main_body checked false 1 idle_storage 9003
        (t₁ ∷ t₂ ∷ [])
        8_000_000
        (λ i. 0, empty)
      ≡ ok (cs, (m, k)))
    × ((sp : ℕ) × (g : Kernel) × (svc_first_task_sp 4 k ≡ ok (sp, g))
        × ((h : Kernel)
            → Trace 4 3 g h
            → ((a : ℕ) → a ∈ (3 ∷ 2 ∷ 1 ∷ []) → is_running (h.tasks a).state ≡ true → a ≡ h.current)
              × ((old_sp : ℕ)
                  → (new_sp : ℕ) × (j : Kernel) × (pendsv_save_and_switch 4 old_sp h
                      ≡ ok (new_sp, j))
                    × (is_running (j.tasks j.current).state ≡ true))))
main_body-switches_example =
    main_body-switches 1 4 checked false idle_storage 9003 8_000_000 (t₁ ∷ t₂ ∷ []) (λ i. 0) empty
      refl (omega arith) (omega arith) two-FitInTurn idle-Fits (omega arith) 2 refl
      (λ e. omega (arith, e), (λ e. omega arith, (λ e. omega arith, tt)))
