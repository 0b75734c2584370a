-- ===== src/Pool/View.antt =====
-- What a pool of kangaroos/src/mem/mod.rs stands for: its free slots, the tasks that wait with their values, and
-- the steps of `alloc_blocking` and of the drop of a box on it. `PoolBox` is the handle of a slot.
use kangaroos.Base.{ℕ, ◌≡◌, ◌⊎◌, some, List, [], ◌∷◌, ◌++◌, ◌==◌, if◌then◌else◌, ◌∈◌}
use kangaroos.Run.{Run, ok, ◌>>=◌}
use kangaroos.Pick.{Picks}
use kangaroos.Tcb.{Tasks, ready}
use kangaroos.WaitList.Links.{first, Links}
use kangaroos.WaitList.Pop.{prio, any_task}
use kangaroos.Slots.{Slots, store, assume_init}
use kangaroos.Pool.{Pool, index}
use kangaroos.Pool.Laws.{IsPool}

pub record PoolBox : Type 0 where
  pub slot : ℕ

module _ {T : Type 0} where
  -- `Deref`.
  unfoldable pub deref : (n : ℕ) → Pool T → PoolBox → Run T
  deref n p b = do i ← index n b.slot; assume_init (p.nodes i)

  -- A write through `DerefMut`.
  unfoldable pub deref_mut : (n : ℕ) → Pool T → PoolBox → T → Run (Pool T)
  deref_mut n p b val = do
    i ← index n b.slot
    _ ← assume_init (p.nodes i)
    ok (record p { nodes = store p.nodes i val })

-- A task waits with its value in `parked`.
pub record View (T : Type 0) : Type 0 where
  pub free : List ℕ
  pub waiters : List ℕ
  pub parked : ℕ → T

-- The pool stands for `v`. Tasks wait only if no slot is free.
pub record IsShared {T : Type 0} (n : ℕ) (p : Pool T) (stack : Slots T) (h : Tasks) (v : View T)
    : Type 0 where
  pub pool : IsPool n p v.free
  pub wait_head : p.wait_head ≡ first v.waiters
  pub links : Links h v.waiters
  pub none_free : (v.waiters ≡ []) ⊎ (v.free ≡ [])
  pub values : (a : ℕ) → a ∈ v.waiters → stack (h a).wait_ptr ≡ some (v.parked a)

-- The drop of the box of `slot`, with `p` and `g` behind it: the slot is the first free one, or the first waiter
-- of the least priority number is ready, with the slot, which holds its value.
pub data DropStep {T : Type 0} (h : Tasks) (slot : ℕ) (p : Pool T) (g : Tasks) (v : View T)
    : View T → Type 0 where
  frees : v.waiters ≡ [] → DropStep h slot p g v (record v { free = slot ∷ v.free })
  hands :
      (b : ℕ) (w : Picks any_task (prio h) v.waiters b)
      → p.nodes slot ≡ some (v.parked b)
      → (g b).wait_ptr ≡ slot
      → (g b).state ≡ ready (h b).time_slice
      → DropStep h slot p g v (record v { waiters = w.before ++ w.after })

-- `alloc_blocking` by the task `me`: the first free slot has the value and the task its index, or the task waits
-- with the value.
pub data AllocStep {T : Type 0} (me : ℕ) (val : T) (p : Pool T) (g : Tasks) (v : View T)
    : View T → Type 0 where
  takes :
      (x : ℕ) (xs : List ℕ)
      → v.free ≡ x ∷ xs
      → p.nodes x ≡ some val
      → (g me).wait_ptr ≡ x
      → AllocStep me val p g v (record v { free = xs })
  waits :
      v.free ≡ []
      → AllocStep me val p g v
          (record v { waiters = me ∷ v.waiters; parked = λ a. if a == me then val else v.parked a })
