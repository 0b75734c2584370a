-- ===== src/Boot/Tokens.antt =====
-- Which tokens may be spawned together, and what is then true of their tasks.
use kangaroos.Base.{ℕ, ◌+◌, ◌*◌, ◌≡◌, ◌≢◌, ◌≤◌, ◌⊎◌, true, List, [], ◌∷◌, ◌++◌, ◌∉◌}
use kangaroos.Tcb.{null, ready}
use kangaroos.Kernel.{Kernel}
use kangaroos.Scheduler.Launch.{IsSpawned}
use kangaroos.Arch.Cpu.{HasWords}
use kangaroos.Arch.Stub.{words}
use kangaroos.Arch.Frame.{canary_check}
use kangaroos.Arch.Frame.Laws.{initial, hardware_words, top_of_frame}
use kangaroos.Boot.{SpawnToken, stack_of}

-- The task of a token before it runs: ready, with its initial frame on its stack and the canary below.
pub record IsFresh (exit_lr : ℕ) (m : ℕ → ℕ) (k : Kernel) (t : SpawnToken) : Type 0 where
  pub state : (k.tasks t.tcb_ptr).state ≡ ready t.time_slice
  pub priority : (k.tasks t.tcb_ptr).priority ≡ t.priority
  pub base_priority : (k.tasks t.tcb_ptr).base_priority ≡ t.priority
  pub time_slice : (k.tasks t.tcb_ptr).time_slice ≡ t.time_slice
  pub stack_base : (k.tasks t.tcb_ptr).stack_base ≡ t.stack_ptr
  pub sp : (k.tasks t.tcb_ptr).sp ≡ top_of_frame (stack_of t)
  pub frame :
      HasWords m
        (top_of_frame (stack_of t))
        (words (initial (stack_of t)) ++ hardware_words exit_lr t.entry)
  pub canary : canary_check m t.stack_ptr ≡ true
  pub room : 21 ≤ t.stack_len

-- Two stacks that do not overlap.
abbrev pub Apart : SpawnToken → SpawnToken → Type 0
Apart t u =
    (t.stack_ptr + 4 * t.stack_len ≤ u.stack_ptr) ⊎ (u.stack_ptr + 4 * u.stack_len ≤ t.stack_ptr)

abbrev pub AllTokens : (SpawnToken → Type 0) → List SpawnToken → Type 0
AllTokens P [] = Unit {0}
AllTokens P (t ∷ ts) = P t × AllTokens P ts

abbrev pub tcbs : List SpawnToken → List ℕ
tcbs [] = []
tcbs (t ∷ ts) = t.tcb_ptr ∷ tcbs ts

-- A token that may join these: its control block is a new one, its stack overlaps no other and has 21 words.
abbrev pub Fits : SpawnToken → List SpawnToken → Type 0
Fits t ts = (t.tcb_ptr ≢ null) × (t.tcb_ptr ∉ tcbs ts) × (21 ≤ t.stack_len) × AllTokens (Apart t) ts

-- The kernel before launch, with the tasks of these tokens, the latest first.
pub record Booted (exit_lr : ℕ) (ts : List SpawnToken) (m : ℕ → ℕ) (k : Kernel) : Type 0 where
  pub spawned : IsSpawned k (tcbs ts)
  pub fresh : AllTokens (IsFresh exit_lr m k) ts
