-- ===== src/Sync/Mutex/Guard.antt =====
-- `MutexGuard` of kangaroos/src/sync/mutex.rs: the value behind the guard, and the release when it is dropped.
use kangaroos.Base.{arith, ℕ, ◌≡◌}
use kangaroos.Run.{Run, ok}
use kangaroos.Kernel.{Kernel}
use kangaroos.Sync.Mutex.{Mutex, unlock_internal}

module _ {T : Type 0} where
  -- `Deref`.
  abbrev pub deref : Mutex T → T
  deref m = m.value

  -- A write through `DerefMut`.
  abbrev pub deref_mut : Mutex T → T → Mutex T
  deref_mut m v = record m { value = v }

  -- `Drop`.
  abbrev pub drop : ℕ → Mutex T → Kernel → Run (Mutex T × Kernel)
  drop f m k = unlock_internal f m k

  -- What one owner writes is what the next owner reads.
  pub deref-drop :
      (f : ℕ) (m : Mutex T) (v : T) (k : Kernel) (m' : Mutex T) (k' : Kernel)
      → drop f (deref_mut m v) k ≡ ok (m', k')
      → deref m' ≡ v
  unfolding unlock_internal
  deref-drop f m v k m' k' e = ground (arith, e)
