-- ===== src/Boot.antt =====
-- How tasks come into being and how SysTick looks after them: kangaroos/src/task.rs (`SpawnToken`,
-- `Spawner::spawn`, `spawn_into`), kernel/storage.rs, kernel/idle.rs (`register`) and kernel/mod.rs
-- (`systick_handler`). The words of the stacks are a memory of their own, apart from the control blocks.
pub mod Tokens
pub mod Spawn
pub mod Turns
pub mod Launch
pub mod SysTick
pub mod Respawn
pub mod Start
pub mod Main
pub mod Samples
mod Tests
use Prim.Native.String.{String}
use kangaroos.Base.{
  ℕ, zero, suc, List, [], ◌∷◌, Bool, true, false, ◌&&◌, not, ◌==◌, if◌then◌else◌, map,
}
use kangaroos.Run.{Run, ok, panic, out_of_fuel, ◌>>=◌}
use kangaroos.Tcb.{Ptr, null, TaskState, ready, dead, uninit, Tasks, load, write}
use kangaroos.Kernel.{Kernel, trigger_pendsv_if}
use kangaroos.Tick.{tick}
use kangaroos.Arch.Frame.{Slice, canary_init, canary_check, stack_init}

pub record SpawnToken : Type 0 where
  pub tcb_ptr : Ptr
  pub stack_ptr : ℕ
  pub stack_len : ℕ
  pub priority : ℕ
  pub time_slice : ℕ
  pub entry : ℕ
  pub name : String

-- `SpawnToken::new`.
abbrev pub new :
    (tcb_ptr : Ptr) (stack_ptr stack_len priority time_slice entry : ℕ) (name : String) → SpawnToken
new tcb_ptr stack_ptr stack_len priority time_slice entry name = record {
  tcb_ptr = tcb_ptr;
  stack_ptr = stack_ptr;
  stack_len = stack_len;
  priority = priority;
  time_slice = time_slice;
  entry = entry;
  name = name;
}

-- `from_raw_parts_mut(stack_ptr, stack_len)`.
abbrev pub stack_of : SpawnToken → Slice
stack_of t = record { ptr = t.stack_ptr; len = t.stack_len }

-- The words of the stacks, and the kernel.
abbrev pub Boot : Type 0
Boot = (ℕ → ℕ) × Kernel

-- `spawn_into`, where the port writes `exit_lr` as LR into the frame.
unfoldable pub spawn_into : (exit_lr : ℕ) → SpawnToken → Boot → Run Boot
spawn_into exit_lr t (m, k) = do
  m₁ ← canary_init m (stack_of t)
  (sp, m₂) ← stack_init exit_lr m₁ (stack_of t) t.entry
  old ← load k.tasks t.tcb_ptr
  let tcb = record old {
    sp = sp;
    state = ready t.time_slice;
    priority = t.priority;
    base_priority = t.priority;
    time_slice = t.time_slice;
    stack_base = t.stack_ptr;
    name = t.name;
    wait_ptr = 0;
    all_next = k.all_tasks;
  }
  ok (m₂, record k { tasks = write k.tasks t.tcb_ptr tcb; all_tasks = t.tcb_ptr })

-- `Spawner::spawn`.
abbrev pub spawn : (exit_lr : ℕ) → SpawnToken → Boot → Run Boot
spawn exit_lr token st = spawn_into exit_lr token st

-- `main` spawns its tasks in turn.
unfoldable spawn_all : (exit_lr : ℕ) → List SpawnToken → Boot → Run Boot
spawn_all exit_lr [] st = ok st
spawn_all exit_lr (t ∷ ts) st = do st' ← spawn exit_lr t st; spawn_all exit_lr ts st'

-- `TaskStorage<N>`: where its stack of `n` words and its control block are.
pub record TaskStorage : Type 0 where
  pub stack : ℕ
  pub n : ℕ
  pub tcb : Ptr

abbrev pub tcb_ptr : TaskStorage → Ptr
tcb_ptr s = s.tcb

abbrev pub stack_slice : TaskStorage → Slice
stack_slice s = record { ptr = s.stack; len = s.n }

-- What `register` spawns for `IDLE_STORAGE`, where `idle_task` is the entry.
abbrev pub idle_token : (storage : TaskStorage) → (idle_task : ℕ) → SpawnToken
idle_token storage idle_task = record {
  tcb_ptr = tcb_ptr storage;
  stack_ptr = (stack_slice storage).ptr;
  stack_len = (stack_slice storage).len;
  priority = 255;
  time_slice = 1;
  entry = idle_task;
  name = "idle";
}

-- `idle::register`.
abbrev pub register : (exit_lr : ℕ) → (storage : TaskStorage) → (idle_task : ℕ) → Boot → Run Boot
register exit_lr storage idle_task st = spawn_into exit_lr (idle_token storage idle_task) st

-- `Dead | Uninit`.
abbrev pub is_gone : TaskState → Bool
is_gone dead = true
is_gone uninit = true
is_gone _ = false

-- The walk of `systick_handler` over the canaries.
pub check_canaries : ℕ → (ℕ → ℕ) → Tasks → Ptr → Run (Unit {0})
check_canaries zero m h t = out_of_fuel
check_canaries (suc f) m h t =
    let rest = check_canaries f m h (h t).all_next in
    if t == null
    then ok tt
    else (if not (is_gone (h t).state) && not (canary_check m (h t).stack_base)
        then panic
        else rest)

pub systick_handler : ℕ → Boot → Run Boot
systick_handler f (m, k) = do
  (switch, k') ← tick f k
  let k'' = trigger_pendsv_if switch k'
  _ ← check_canaries f m k''.tasks k''.all_tasks
  ok (m, k'')
