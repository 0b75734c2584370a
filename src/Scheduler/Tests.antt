-- ===== src/Scheduler/Tests.antt =====
-- The scheduler on three tasks.
use kangaroos.Base.{ℕ, ◌≡◌, ◌≢◌, ◌≤◌, refl, arith}
use kangaroos.Run.{ok, null_deref}
use kangaroos.Pick.{Picks}
use kangaroos.Tcb.{running, set_state, load}
use kangaroos.Kernel.{Kernel}
use kangaroos.WaitList.Pop.{prio}
use kangaroos.Scheduler.{
  find_next, pass, start, svc_first_task_sp, pendsv_save_and_switch, first_task, dispatch,
}
use kangaroos.Scheduler.FindNext.{fit}
use kangaroos.Scheduler.Invariant.{IsScheduled, rotation, find_next_lem}
use kangaroos.Scheduler.Switch.{Switched, switch_lem}
use kangaroos.Scheduler.Launch.{launch-null_deref}
use kangaroos.Scheduler.Fair.{switch_rotates}
use kangaroos.Samples.{ids, busy, busy-IsScheduled, spawned, idle_only, idle_only-IsSpawned}

switch_lem_example :
    (b : ℕ) × (g : Kernel) × (pendsv_save_and_switch 4 800 busy ≡ ok ((g.tasks b).sp, g))
    × Switched 800 busy ids b g
    × IsScheduled g ids
switch_lem_example = switch_lem 4 800 busy ids busy-IsScheduled (omega arith) 3 refl refl

find_next_lem_example :
    (b : ℕ) × (find_next 4 busy ≡ ok b)
    × Picks (fit busy.tasks) (prio busy.tasks) (rotation 2 ids) b
find_next_lem_example = find_next_lem 4 busy ids busy-IsScheduled (omega arith) 3 refl refl

switch_rotates_example :
    (sp' : ℕ) × (g : Kernel) × (pendsv_save_and_switch 4 800 busy ≡ ok (sp', g))
    × (g.current ≢ 2)
    × (prio busy.tasks g.current ≤ 7)
switch_rotates_example =
    switch_rotates 4 800 busy ids busy-IsScheduled (omega arith) 1 refl (λ e. omega (arith, e)) refl
      (omega arith)

launch-null_deref_example : svc_first_task_sp 4 idle_only ≡ null_deref
launch-null_deref_example =
    launch-null_deref 4 idle_only ids idle_only-IsSpawned (omega arith) (refl, (refl, (refl, tt)))

-- A launch of three tasks starts task 2.
pub launched_spawned :
    svc_first_task_sp 4 spawned
    ≡ ok (0, record spawned { current = 2; tasks = set_state spawned.tasks 2 (running 4) })
unfolding svc_first_task_sp first_task dispatch load
launched_spawned = refl

next_of_busy : find_next 4 busy ≡ ok 1
unfolding find_next pass start
next_of_busy = refl
