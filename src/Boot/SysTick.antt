-- ===== src/Boot/SysTick.antt =====
-- `systick_handler`: the tick, the request of a switch, and the walk over the canaries.
use kangaroos.Base.{ℕ, Bool, true, ◌&&◌, ◌||◌, List, [], ◌∷◌, if◌then◌else◌}
use kangaroos.Run.{Run, ok, panic}
use kangaroos.Tcb.{Tasks, Tcb}
use kangaroos.Kernel.{Kernel}
use kangaroos.Scheduler.Chain.{Chain}
use kangaroos.Arch.Frame.{canary_check}
use kangaroos.Boot.{is_gone}

-- The task is gone or its canary is as it was written.
abbrev pub intact : (ℕ → ℕ) → Tcb → Bool
intact m t = is_gone t.state || canary_check m t.stack_base

abbrev pub all_intact : (ℕ → ℕ) → Tasks → List ℕ → Bool
all_intact m h [] = true
all_intact m h (x ∷ xs) = intact m (h x) && all_intact m h xs

verdict : Bool → Run (Unit {0})
verdict good = if good then ok tt else panic
