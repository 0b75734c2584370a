-- ===== src/Samples.antt =====
-- Test data: task control blocks and kernels with three tasks, the last of them the idle task.
use kangaroos.Base.{ℕ, ◌∷◌, [], List, refl, false, arith, ◌==◌, if◌then◌else◌}
use kangaroos.Tcb.{Ptr, null, TaskState, ready, running, sleeping, blocked, Tcb, Tasks, zeroed}
use kangaroos.Kernel.{Kernel}
use kangaroos.Scheduler.Invariant.{IsScheduled}
use kangaroos.Scheduler.Launch.{IsSpawned}

abbrev task : TaskState → (priority : ℕ) → Ptr → Tcb
task s p n = record zeroed {
  state = s;
  priority = p;
  base_priority = p;
  time_slice = 4;
  all_next = n;
}

-- The tasks 1 and 2 in the given states and with the given priorities, and the idle task 3.
abbrev pub three : (s₁ : TaskState) (p₁ : ℕ) (s₂ : TaskState) (p₂ : ℕ) → Tasks
three s₁ p₁ s₂ p₂ a =
    if a == 1
    then task s₁ p₁ 2
    else (if a == 2 then task s₂ p₂ 3 else (if a == 3 then task (ready 4) 255 null else zeroed))

abbrev pub kernel : Ptr → Tasks → Kernel
kernel c h = record { tick = 5; current = c; all_tasks = 1; tasks = h; pendsv = false }

abbrev pub ids : List ℕ
ids = 1 ∷ 2 ∷ 3 ∷ []

-- Task 2 runs, task 1 has the same priority and is ready.
abbrev pub busy : Kernel
busy = kernel 2 (three (ready 2) 7 (running 3) 7)

pub busy-IsScheduled : IsScheduled busy ids
busy-IsScheduled = record {
  chain = ground arith;
  head = refl;
  known = refl;
  alone = λ a m ne. ground arith;
}

-- Task 2 is in the last tick of its time slice, task 1 sleeps.
abbrev pub calm : Kernel
calm = kernel 2 (three (sleeping 100) 3 (running 1) 7)

pub calm-IsScheduled : IsScheduled calm ids
calm-IsScheduled = record {
  chain = ground arith;
  head = refl;
  known = refl;
  alone = λ a m ne. ground arith;
}

-- The deadline of task 1 is the next tick.
abbrev pub dawn : Kernel
dawn = kernel 2 (three (sleeping 6) 3 (running 3) 7)

pub dawn-IsScheduled : IsScheduled dawn ids
dawn-IsScheduled = record {
  chain = ground arith;
  head = refl;
  known = refl;
  alone = λ a m ne. ground arith;
}

-- Before launch: the tasks 1 and 2 are ready.
abbrev pub spawned : Kernel
spawned = kernel null (three (ready 4) 9 (ready 4) 7)

pub spawned-IsSpawned : IsSpawned spawned ids
spawned-IsSpawned = record { chain = ground arith; head = refl; idle = λ a m. ground arith }

-- Only the idle task is ready.
abbrev pub idle_only : Kernel
idle_only = kernel null (three (sleeping 9) 9 (sleeping 9) 7)

pub idle_only-IsSpawned : IsSpawned idle_only ids
idle_only-IsSpawned = record { chain = ground arith; head = refl; idle = λ a m. ground arith }

-- Task 3 runs, the tasks 1 and 2 wait in a list that task 1 leads.
abbrev pub waiting : Kernel
waiting = record (kernel 3 (three (blocked 2) 9 (blocked null) 7)) {
  tasks = λ a. if a == 3 then task (running 4) 30 null else three (blocked 2) 9 (blocked null) 7 a;
}

-- No task can run, which a running idle task excludes.
abbrev pub asleep : Kernel
asleep = record (kernel 3 (three (sleeping 9) 9 (blocked null) 7)) {
  tasks =
      λ a. if a == 3 then task (sleeping 9) 255 null else three (sleeping 9) 9 (blocked null) 7 a;
}

pub asleep-IsScheduled : IsScheduled asleep ids
asleep-IsScheduled = record {
  chain = ground arith;
  head = refl;
  known = refl;
  alone = λ a m ne. ground arith;
}
