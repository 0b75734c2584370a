-- ===== src/System/Main.antt =====
-- A whole program: `main`, the launch of its first task, and every step of interrupts and tasks from there on.
use kangaroos.Base.{
  ℕ, ◌≡◌, ◌≤◌, ◌<◌, ◌^◌, ap, subst, sym, Bool, true, List, [], ◌∷◌, length, arith, ◌∈◌,
}
use kangaroos.Run.{ok}
use kangaroos.Tcb.{null, is_ready, is_running}
use kangaroos.Kernel.{Kernel}
use kangaroos.Scheduler.{svc_first_task_sp, pendsv_save_and_switch}
use kangaroos.Scheduler.Launch.{launch_lem}
use kangaroos.Timer.{Build}
use kangaroos.Arch.Ports.{armv7m}
use kangaroos.Boot.{SpawnToken, TaskStorage, idle_token}
use kangaroos.Boot.Tokens.{AllTokens, tcbs, Fits}
use kangaroos.Boot.Turns.{FitInTurn, onto}
use kangaroos.Boot.Launch.{fresh-can_launch, length-tcbs}
use kangaroos.Boot.Start.{Call}
use kangaroos.Boot.Main.{main_body, main_body_lem, later}
use kangaroos.System.Traces.{Trace}
use kangaroos.System.Boot.{boot_alone, boot_switches}

at_head : (a : ℕ) (xs : List ℕ) → a ∈ a ∷ xs
at_head a xs = ground arith

-- A `main` that spawns tokens that fit, one of them with a priority above that of the idle task, for a clock from
-- 1000 Hz on, reaches its `svc`, which launches a task. After any sequence of ticks, context switches and calls
-- of the primitives that return from there, at which the idle task makes no call that may block, a running task
-- is the current one, and a context switch neither panics nor faults and ends with the current task running.
pub main_body-switches :
    (exit_lr f : ℕ) (build : Build) (has_fpu : Bool) (storage : TaskStorage) (idle_task hz : ℕ)
    (us : List SpawnToken) (m₀ : ℕ → ℕ) (k₀ : Kernel)
    → k₀.all_tasks ≡ null
    → 1000 ≤ hz
    → hz < 2 ^ 32
    → FitInTurn us []
    → Fits (idle_token storage idle_task) (onto us [])
    → length (idle_token storage idle_task ∷ onto us []) < f
    → (i : ℕ) → i ∈ tcbs (onto us [])
    → AllTokens (λ t. t.tcb_ptr ≡ i → t.priority < 255) (idle_token storage idle_task ∷ onto us [])
    → (cs : List Call) × (m : ℕ → ℕ) × (k : Kernel) × (main_body build has_fpu exit_lr storage
          idle_task us hz
          (m₀, k₀)
        ≡ ok (cs, (m, k)))
      × ((sp : ℕ) × (g : Kernel) × (svc_first_task_sp f k ≡ ok (sp, g))
          × ((h : Kernel)
              → Trace f storage.tcb g h
              → ((a : ℕ)
                  → a ∈ (storage.tcb ∷ tcbs (onto us []))
                  → is_running (h.tasks a).state ≡ true
                  → a ≡ h.current)
                × ((old_sp : ℕ)
                    → (new_sp : ℕ) × (j : Kernel) × (pendsv_save_and_switch f old_sp h
                        ≡ ok (new_sp, j))
                      × (is_running (j.tasks j.current).state ≡ true))))
main_body-switches exit_lr f build has_fpu storage idle_task hz us m₀ k₀ none lo hi fit idle-Fits
      fuel i mem above =
    let idle = idle_token storage idle_task in
    let ts = idle ∷ onto us [] in
    let (cs, m, k, returns, all) =
      main_body_lem build has_fpu exit_lr storage idle_task hz us m₀ k₀ none lo hi fit idle-Fits in
    let listed = later i storage.tcb (tcbs (onto us [])) mem in
    let first : storage.tcb ∈ tcbs ts = at_head storage.tcb (tcbs (onto us [])) in
    let can =
      fresh-can_launch exit_lr f (λ r c q. 0) (λ l q. l) armv7m ts m k i all.fresh above listed in
    let enough = subst (λ n. n < f) (sym (length-tcbs ts)) fuel in
    let idle_ready = ap is_ready all.fresh.0.state in
    let (b, g, launched, _, _, _, _, _) =
      launch_lem f k (tcbs ts) all.spawned enough i listed can in
    let sp = (k.tasks b).sp in
    (
      cs,
      m,
      k,
      returns,
      (
        sp,
        g,
        launched,
        λ h r. (
          boot_alone f storage.tcb i (tcbs ts) k g h sp all.spawned enough first idle_ready listed
              can launched r,
          boot_switches f storage.tcb i (tcbs ts) k g h sp all.spawned enough first idle_ready
              listed can launched r,
        ),
      ),
    )
