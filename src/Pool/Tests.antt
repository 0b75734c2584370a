-- ===== src/Pool/Tests.antt =====
-- A pool of three slots, of which the slots 2 and 0 are free.
use kangaroos.Base.{◌∈◌, inr, ℕ, ◌≡◌, ◌≢◌, refl, [], ◌∷◌, none, some, ◌==◌, arith, if◌then◌else◌}
use kangaroos.Run.{ok, ◌>>=◌}
use kangaroos.Tcb.{null}
use kangaroos.Kernel.{Kernel}
use kangaroos.Samples.{waiting}
use kangaroos.Slots.{Slots, store}
use kangaroos.Pool.{Pool, alloc_blocking, box_drop}
use kangaroos.Pool.View.{View, IsShared, DropStep, AllocStep, deref, deref_mut}
use kangaroos.Pool.Dropping.{drop_refines}
use kangaroos.Pool.Allocating.{alloc_refines}
use kangaroos.Pool.Laws.{IsPool}

abbrev pool : Pool ℕ
pool = record {
  nodes = λ i. if i == 1 then some 70 else none;
  next = λ i. if i == 2 then 0 else 255;
  free_head = 2;
  wait_head = null;
}

pool-IsPool : IsPool 3 pool (2 ∷ 0 ∷ [])
pool-IsPool = record {
  small = omega arith;
  head = refl;
  frees = ground arith;
  live = λ i lt out. (70, ground arith);
}

-- All slots hold 70, and the tasks 1 and 2 wait with 60.
abbrev shared : Pool ℕ
shared = record { nodes = λ i. some 70; next = λ i. 255; free_head = 255; wait_head = 1 }

abbrev stack : Slots ℕ
stack i = some 60

abbrev view : View ℕ
view = record { free = []; waiters = 1 ∷ 2 ∷ []; parked = λ a. 60 }

shared-IsShared : IsShared 3 shared stack waiting.tasks view
shared-IsShared = record {
  pool = record { small = omega arith; head = refl; frees = tt; live = λ i lt out. (70, refl) };
  wait_head = refl;
  links = ground arith;
  none_free = inr refl;
  values = λ a i. refl;
}

drop_refines_example :
    (p : Pool ℕ) × (g : Kernel) × (v : View ℕ) × (box_drop 2 3 shared stack waiting 1 ≡ ok (p, g))
    × IsShared 3 p stack g.tasks v
    × DropStep waiting.tasks 1 p g.tasks view v
drop_refines_example =
    drop_refines 2 3 shared stack waiting view shared-IsShared 1 (omega arith) refl
      (λ e. omega (arith, e)) (omega arith)

alloc_refines_example :
    (p : Pool ℕ) × (s : Slots ℕ) × (g : Kernel) × (v : View ℕ) × (alloc_blocking 3 shared stack
        waiting 80 100
      ≡ ok (p, s, g))
    × IsShared 3 p s g.tasks v
    × AllocStep 3 80 p g.tasks view v
alloc_refines_example =
    alloc_refines 3 shared stack waiting view shared-IsShared (λ e. omega (arith, e)) 80 100 refl
      (λ a i. apart a i)
  where
    apart : (a : ℕ) → a ∈ (1 ∷ 2 ∷ []) → (waiting.tasks a).wait_ptr ≢ 100
    apart a i = ground arith

-- Reads and writes through a box.
read_box : deref 3 shared (record { slot = 1 }) ≡ ok 70
unfolding deref
read_box = refl

write_box :
    (deref_mut 3 shared (record { slot = 1 }) 71 >>= λ p. deref 3 p (record { slot = 1 })) ≡ ok 71
unfolding deref deref_mut store
write_box = refl
