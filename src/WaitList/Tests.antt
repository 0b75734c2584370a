-- ===== src/WaitList/Tests.antt =====
-- A wait list with two waiters.
use kangaroos.Base.{[], ◌∷◌, arith}
use kangaroos.WaitList.Pop.{Pops, pop-Popped}
use kangaroos.Samples.{waiting}

pop-Popped_example : Pops 2 waiting.tasks (1 ∷ 2 ∷ [])
pop-Popped_example = pop-Popped 2 waiting.tasks 1 (2 ∷ []) (ground arith) (omega arith)
