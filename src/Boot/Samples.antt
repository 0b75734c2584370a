-- ===== src/Boot/Samples.antt =====
-- Test data: the tokens of two tasks, the storage of the idle task, and a kernel without tasks.
use kangaroos.Base.{ℕ, refl, false, [], ◌∷◌, arith, inr}
use kangaroos.Tcb.{zeroed}
use kangaroos.Kernel.{Kernel}
use kangaroos.Boot.{SpawnToken, TaskStorage, idle_token}
use kangaroos.Boot.Tokens.{Fits}
use kangaroos.Boot.Turns.{FitInTurn}

abbrev pub token : (tcb stack_ptr priority : ℕ) → SpawnToken
token tcb stack_ptr priority = record {
  tcb_ptr = tcb;
  stack_ptr = stack_ptr;
  stack_len = 32;
  priority = priority;
  time_slice = 4;
  entry = 9001;
  name = "task";
}

abbrev pub empty : Kernel
empty = record { tick = 0; current = 0; all_tasks = 0; tasks = λ a. zeroed; pendsv = false }

abbrev pub t₁ : SpawnToken
t₁ = token 1 1000 7

abbrev pub t₂ : SpawnToken
t₂ = token 2 2000 5

abbrev pub idle_storage : TaskStorage
idle_storage = record { stack = 3000; n = 64; tcb = 3 }

pub idle-Fits : Fits (idle_token idle_storage 9003) (t₂ ∷ t₁ ∷ [])
idle-Fits = (λ e. omega (arith, e), refl, omega arith, (inr (omega arith), (inr (omega arith), tt)))

pub two-FitInTurn : FitInTurn (t₁ ∷ t₂ ∷ []) []
two-FitInTurn = (
  (λ e. omega (arith, e), refl, omega arith, tt),
  ((λ e. omega (arith, e), refl, omega arith, (inr (omega arith), tt)), tt),
)
