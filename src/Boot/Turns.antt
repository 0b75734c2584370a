-- ===== src/Boot/Turns.antt =====
-- Tokens that are spawned in turn.
use kangaroos.Base.{ℕ, ◌≡◌, refl, ◌∙◌, List, [], ◌∷◌}
use kangaroos.Run.{ok}
use kangaroos.Tcb.{null}
use kangaroos.Kernel.{Kernel}
use kangaroos.Boot.{SpawnToken, spawn_all}
use kangaroos.Boot.Tokens.{Fits, Booted}
use kangaroos.Boot.Spawn.{spawn_into_lem}

abbrev pub FitInTurn : List SpawnToken → List SpawnToken → Type 0
FitInTurn [] ts = Unit {0}
FitInTurn (u ∷ us) ts = Fits u ts × FitInTurn us (u ∷ ts)

-- The latest first.
abbrev pub onto : List SpawnToken → List SpawnToken → List SpawnToken
onto [] ts = ts
onto (u ∷ us) ts = onto us (u ∷ ts)

-- Before the first spawn.
pub no_tasks-Booted :
    (exit_lr : ℕ) (m : ℕ → ℕ) (k : Kernel) → k.all_tasks ≡ null → Booted exit_lr [] m k
no_tasks-Booted exit_lr m k none = record {
  spawned = record { chain = tt; head = none; idle = λ a j. cc };
  fresh = tt;
}

pub spawn_all_lem :
    (exit_lr : ℕ) (us ts : List SpawnToken) (m : ℕ → ℕ) (k : Kernel)
    → Booted exit_lr ts m k
    → FitInTurn us ts
    → (m' : ℕ → ℕ) × (k' : Kernel) × (spawn_all exit_lr us (m, k) ≡ ok (m', k'))
      × Booted exit_lr (onto us ts) m' k'
      × (k'.current ≡ k.current)
unfolding spawn_all
spawn_all_lem exit_lr [] ts m k s fit = (m, k, refl, s, refl)
spawn_all_lem exit_lr (u ∷ us) ts m k s fit =
    let (m₁, k₁, returns, s₁, same) = spawn_into_lem exit_lr u ts m k s fit.0 in
    let (m₂, k₂, rest, s₂, same') = spawn_all_lem exit_lr us (u ∷ ts) m₁ k₁ s₁ fit.1 in
    (m₂, k₂, rw returns rest, s₂, same' ∙ same)
