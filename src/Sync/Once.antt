-- ===== src/Sync/Once.antt =====
-- kangaroos/src/sync/once.rs. The user's closure is a parameter: what it and everything that runs
-- meanwhile does to the `Once` and to the kernel.
pub mod Laws
mod Tests
use kangaroos.Base.{ℕ, zero, suc, ◌+◌, Bool, true, false, List, [], ◌∷◌}
use kangaroos.Run.{Run, ok, ◌>>=◌}
use kangaroos.Tcb.{Ptr, null}
use kangaroos.Kernel.{Kernel, trigger_pendsv, trigger_pendsv_if}
use kangaroos.WaitList.{block_and_push}
use kangaroos.Sync.Drain.{drain}

pub data OnceState : Type 0 where
  unstarted running done : OnceState

pub record Once : Type 0 where
  pub state : OnceState
  pub wait_head : Ptr

abbrev pub new : Once
new = record { state = unstarted; wait_head = null }

-- The first critical section, by the state: `am_initializer`, and what it leaves at the return or at
-- the context switch of a task that blocks.
unfoldable pub enter_in : OnceState → Once → Kernel → Run (Bool × Once × Kernel)
enter_in done o k = ok (false, o, k)
enter_in unstarted o k = ok (true, record o { state = running }, k)
enter_in running o k = do
  (head, h) ← block_and_push k.tasks o.wait_head k.current
  ok (false, record o { wait_head = head }, trigger_pendsv (record k { tasks = h }))

unfoldable pub enter : Once → Kernel → Run (Bool × Once × Kernel)
enter o k = enter_in o.state o k

-- The second critical section, behind the closure.
unfoldable pub finish : ℕ → Once → Kernel → Run (Once × Kernel)
finish f o k = do
  (need_preempt, k') ← drain f false k o.wait_head
  ok (record { state = done; wait_head = null }, trigger_pendsv_if need_preempt k')

pub call_once :
    ℕ → (closure : Once → Kernel → Run (Once × Kernel)) → Once → Kernel → Run (Once × Kernel)
call_once f closure o k = do
  (am_initializer, o₁, k₁) ← enter o k
  elim am_initializer [ true ↦ do (o₂, k₂) ← closure o₁ k₁; finish f o₂ k₂ | false ↦ ok (o₁, k₁) ]

abbrev is_done : OnceState → Bool
is_done done = true
is_done _ = false

abbrev pub is_completed : Once → Bool
is_completed o = is_done o.state
