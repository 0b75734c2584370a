-- ===== src/Boot/Main.antt =====
-- The `main` that `#[kangaroos::main]` makes: it spawns its tasks in turn, calls `start` of
-- kangaroos/src/kernel/mod.rs, and the `svc` there launches the first task.
use kangaroos.Base.{ℕ, ◌≡◌, ◌≤◌, ◌<◌, ◌^◌, refl, Bool, List, [], ◌∷◌, length, arith, ◌∈◌}
use kangaroos.Run.{Run, ok, ◌>>=◌}
use kangaroos.Pick.{Picks}
use kangaroos.Tcb.{null}
use kangaroos.Kernel.{Kernel}
use kangaroos.WaitList.Pop.{prio}
use kangaroos.Scheduler.Invariant.{IsScheduled}
use kangaroos.Scheduler.Launch.{can_launch}
use kangaroos.Arch.Cpu.{Cpu}
use kangaroos.Arch.Ports.{Port}
use kangaroos.Timer.{Build}
use kangaroos.Boot.{SpawnToken, Boot, TaskStorage, idle_token, spawn_all}
use kangaroos.Boot.Tokens.{AllTokens, tcbs, Fits, Booted}
use kangaroos.Boot.Turns.{FitInTurn, onto, no_tasks-Booted, spawn_all_lem}
use kangaroos.Boot.Launch.{InMemory, Starts, svcall-launches, fresh-can_launch}
use kangaroos.Boot.Start.{Call, start, start_lem}

-- The body of `main` whose statements spawn these tasks.
unfoldable pub main_body :
    (build : Build) (has_fpu : Bool) (exit_lr : ℕ) (storage : TaskStorage) (idle_task : ℕ)
    → (us : List SpawnToken) (cpu_hz : ℕ) → Boot
    → Run (List Call × Boot)
main_body build has_fpu exit_lr storage idle_task us cpu_hz st = do
  st' ← spawn_all exit_lr us st
  start build has_fpu exit_lr storage idle_task cpu_hz st'

pub later : (a y : ℕ) (ys : List ℕ) → a ∈ ys → a ∈ y ∷ ys
later a y ys i = ground arith

-- Up to its `svc`.
pub main_body_lem :
    (build : Build) (has_fpu : Bool) (exit_lr : ℕ) (storage : TaskStorage) (idle_task hz : ℕ)
    (us : List SpawnToken) (m₀ : ℕ → ℕ) (k₀ : Kernel)
    → k₀.all_tasks ≡ null
    → 1000 ≤ hz
    → hz < 2 ^ 32
    → FitInTurn us []
    → Fits (idle_token storage idle_task) (onto us [])
    → (cs : List Call) × (m : ℕ → ℕ) × (k : Kernel) × (main_body build has_fpu exit_lr storage
          idle_task us hz
          (m₀, k₀)
        ≡ ok (cs, (m, k)))
      × Booted exit_lr (idle_token storage idle_task ∷ onto us []) m k
unfolding main_body
main_body_lem build has_fpu exit_lr storage idle_task hz us m₀ k₀ none lo hi fit idle-Fits =
    let (m₁, k₁, spawned, booted, _) =
      spawn_all_lem exit_lr us [] m₀ k₀ (no_tasks-Booted exit_lr m₀ k₀ none) fit in
    let (cs, m, k, started, all, _, _) =
      start_lem build has_fpu exit_lr storage idle_task hz (onto us []) m₁ k₁ lo hi booted
        idle-Fits in
    (cs, m, k, rw (spawned, started) refl, all)

-- A `main` that spawns tokens that fit into 32-bit addresses, one of them with a priority above that of the idle
-- task, for a clock from 1000 Hz on, reaches its `svc` without a fault, with the idle task in front of the others.
-- `SVCall` then starts the first of the tasks with the least priority number: it leaves the handler with the
-- initial registers of that task, and on top of its stack the hardware finds the entry of its token.
pub main_body-launches :
    (exit_lr f : ℕ) (scratch : ℕ → Cpu → Kernel → ℕ) (limit : ℕ → Kernel → ℕ) (port : Port)
    (build : Build) (has_fpu : Bool) (storage : TaskStorage) (idle_task hz : ℕ)
    (us : List SpawnToken) (c : Cpu) (k₀ : Kernel)
    → k₀.all_tasks ≡ null
    → 1000 ≤ hz
    → hz < 2 ^ 32
    → FitInTurn us []
    → Fits (idle_token storage idle_task) (onto us [])
    → AllTokens InMemory (idle_token storage idle_task ∷ onto us [])
    → length (idle_token storage idle_task ∷ onto us []) < f
    → (i : ℕ) → i ∈ tcbs (onto us [])
    → AllTokens (λ t. t.tcb_ptr ≡ i → t.priority < 255) (idle_token storage idle_task ∷ onto us [])
    → (cs : List Call) × (m : ℕ → ℕ) × (k : Kernel) × (main_body build has_fpu exit_lr storage
          idle_task us hz
          (c.mem, k₀)
        ≡ ok (cs, (m, k)))
      × ((t : SpawnToken) × (c' : Cpu) × (g : Kernel) × Starts exit_lr f scratch limit port
            (record c { mem = m })
            k
            t
            c'
            g
          × Picks (can_launch k.tasks) (prio k.tasks) (storage.tcb ∷ tcbs (onto us [])) t.tcb_ptr
          × IsScheduled g (storage.tcb ∷ tcbs (onto us [])))
main_body-launches exit_lr f scratch limit port build has_fpu storage idle_task hz us c k₀ none lo
      hi fit idle-Fits small fuel i mem above =
    let idle = idle_token storage idle_task in
    let ts = idle ∷ onto us [] in
    let (cs, m, k, returns, all) =
      main_body_lem build has_fpu exit_lr storage idle_task hz us c.mem k₀ none lo hi fit
        idle-Fits in
    let listed : i ∈ tcbs ts = later i storage.tcb (tcbs (onto us [])) mem in
    let can = fresh-can_launch exit_lr f scratch limit port ts m k i all.fresh above listed in
    (
      cs,
      m,
      k,
      returns,
      svcall-launches exit_lr f scratch limit port ts (record c { mem = m }) k all small fuel i
          listed can,
    )
