-- ===== src/Boot/Tests.antt =====
-- Two tasks and the idle task from their tokens to launch, and a SysTick.
use kangaroos.Base.{ℕ, ◌≡◌, ◌≤◌, refl, true, false, List, [], ◌∷◌, arith}
use kangaroos.Run.{ok, out_of_fuel}
use kangaroos.Pick.{Picks}
use kangaroos.Kernel.{Kernel}
use kangaroos.WaitList.Pop.{prio}
use kangaroos.Timer.{checked}
use kangaroos.Scheduler.{svc_first_task_sp}
use kangaroos.Scheduler.Invariant.{IsScheduled}
use kangaroos.Scheduler.Launch.{can_launch}
use kangaroos.Arch.Cpu.{Cpu}
use kangaroos.Arch.Ports.{armv7m}
use kangaroos.Boot.{SpawnToken, spawn_into, spawn, idle_token}
use kangaroos.Boot.Tokens.{Booted}
use kangaroos.Boot.Spawn.{spawn_into_lem}
use kangaroos.Boot.Launch.{Starts}
use kangaroos.Boot.Respawn.{respawn-endless}
use kangaroos.Boot.Start.{Call, start, Ranks, Period, start_lem}
use kangaroos.Boot.Main.{main_body, main_body-launches}
use kangaroos.Boot.Samples.{empty, t₁, t₂, idle_storage, idle-Fits, two-FitInTurn}

empty-Booted : Booted 1 [] (λ i. 0) empty
empty-Booted = record {
  spawned = record { chain = tt; head = refl; idle = λ a i. refl };
  fresh = tt;
}

spawn_into_lem_example :
    (m : ℕ → ℕ) × (k : Kernel) × (spawn_into 1 t₁ (λ i. 0, empty) ≡ ok (m, k))
    × Booted 1 (t₁ ∷ []) m k
    × (k.current ≡ 0)
spawn_into_lem_example =
    spawn_into_lem 1 t₁ [] (λ i. 0) empty empty-Booted
      (λ e. omega (arith, e), refl, omega arith, tt)

twice :
    (m : ℕ → ℕ) × (k : Kernel) × (spawn_into 1 t₁ (λ i. 0, empty) ≡ ok (m, k))
    × Booted 1 (t₁ ∷ []) m k
    × (k.current ≡ 0)
twice =
    spawn_into_lem 1 t₁ [] (λ i. 0) empty empty-Booted
      (λ e. omega (arith, e), refl, omega arith, tt)

abbrev at_svc : Cpu
at_svc = record {
  v0 = 0;
  v1 = 0;
  v2 = 0;
  v3 = 0;
  v4 = 0;
  v5 = 0;
  v6 = 0;
  v7 = 0;
  v8 = 0;
  v9 = 0;
  v10 = 0;
  v11 = 0;
  v12 = 0;
  link = 0xFFFFFFF9;
  pc = 0;
  psp = 0;
  psplim = 0;
  control = 0;
  zero_flag = false;
  fpu = λ i. 0;
  mem = λ i. 0;
}

main_body-launches_example :
    (cs : List Call) × (m : ℕ → ℕ) × (k : Kernel) × (main_body checked false 1 idle_storage 9003
        (t₁ ∷ t₂ ∷ [])
        8_000_000
        (λ i. 0, empty)
      ≡ ok (cs, (m, k)))
    × ((t : SpawnToken) × (c : Cpu) × (g : Kernel) × Starts 1 4
          (λ r c k. 0)
          (λ l k. l)
          armv7m
          (record at_svc { mem = m })
          k
          t
          c
          g
        × Picks (can_launch k.tasks) (prio k.tasks) (3 ∷ 2 ∷ 1 ∷ []) t.tcb_ptr
        × IsScheduled g (3 ∷ 2 ∷ 1 ∷ []))
main_body-launches_example =
    main_body-launches 1 4 (λ r c k. 0) (λ l k. l) armv7m checked false idle_storage 9003 8_000_000
      (t₁ ∷ t₂ ∷ []) at_svc empty refl (omega arith) (omega arith) two-FitInTurn idle-Fits
      (omega arith, (omega arith, (omega arith, tt))) (omega arith) 2 refl
      (λ e. omega (arith, e), (λ e. omega arith, (λ e. omega arith, tt)))

start_lem_example :
    (cs : List Call) × (m : ℕ → ℕ) × (k : Kernel) × (start checked true 1 idle_storage 9003
        8_000_000
        (λ i. 0, empty)
      ≡ ok (cs, (m, k)))
    × Booted 1 (idle_token idle_storage 9003 ∷ []) m k
    × ((bits : ℕ) → 1 ≤ bits → bits ≤ 8 → Ranks bits cs)
    × Period 8_000_000 cs
start_lem_example =
    start_lem checked true 1 idle_storage 9003 8_000_000 [] (λ i. 0) empty (omega arith)
      (omega arith) empty-Booted (λ e. omega (arith, e), refl, omega arith, tt)

-- One task that is spawned twice.
respawn-endless_example :
    (m : ℕ → ℕ) × (k : Kernel) × (spawn 1 t₁ (twice.0, twice.1) ≡ ok (m, k))
    × ((f : ℕ) → svc_first_task_sp f k ≡ out_of_fuel)
respawn-endless_example =
    respawn-endless 1 t₁ (t₁ ∷ []) twice.0 twice.1 twice.3 (λ e. omega (arith, e)) (omega arith)
      refl
