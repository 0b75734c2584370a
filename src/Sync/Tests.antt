-- ===== src/Sync/Tests.antt =====
-- The semaphore and the mutex with two tasks that wait.
use kangaroos.Base.{
  ℕ, ◌≤◌, ◌≡◌, ◌≢◌, ◌∷◌, [], List, refl, min, arith, ◌==◌, if◌then◌else◌, ltb, inl, inr,
}
use kangaroos.Run.{ok}
use kangaroos.Tcb.{blocked, null, set_state}
use kangaroos.Kernel.{Kernel, trigger_pendsv, trigger_pendsv_if}
use kangaroos.WaitList.Links.{first, Links}
use kangaroos.WaitList.Pop.{prio}
use kangaroos.Sync.Handover.{HandsOver}
use kangaroos.Sync.Semaphore.{Semaphore, take, give}
use kangaroos.Sync.Semaphore
use kangaroos.Sync.Semaphore.Laws.{IsSemaphore, give_wakes, take_blocks}
use kangaroos.Sync.Mutex.{Mutex, lock, unlock_internal}
use kangaroos.Sync.Mutex.Laws.{
  IsMutex, parked, restored, restored_kernel, lock_free, lock_blocks, unlock_grants, unlock_nested,
}
use kangaroos.Samples.{waiting, busy}

waiting-Links : Links waiting.tasks (1 ∷ 2 ∷ [])
waiting-Links = ground arith

abbrev empty_semaphore : Semaphore
empty_semaphore = record { count = 0; max = 1; wait_head = 1 }

empty_semaphore-IsSemaphore : IsSemaphore empty_semaphore waiting (1 ∷ 2 ∷ [])
empty_semaphore-IsSemaphore = record {
  head = refl;
  links = waiting-Links;
  empty = inr refl;
  ceiling = omega arith;
}

give_wakes_example :
    (b : ℕ) × (rest : List ℕ) × (g : Kernel) × (give 2 empty_semaphore waiting
      ≡ ok (
        record empty_semaphore { wait_head = first rest },
        trigger_pendsv_if (ltb (prio waiting.tasks b) 30) g,
      ))
    × HandsOver waiting (1 ∷ 2 ∷ []) b rest g
    × IsSemaphore (record empty_semaphore { wait_head = first rest }) g rest
give_wakes_example =
    give_wakes empty_semaphore waiting 2 1 (2 ∷ []) empty_semaphore-IsSemaphore
      (λ e. omega (arith, e)) (omega arith)

new-IsSemaphore : (n : ℕ) → n ≤ 2 → IsSemaphore (Semaphore.new n 2) busy []
new-IsSemaphore n le = record { head = refl; links = tt; empty = inl refl; ceiling = le }

take_blocks_example :
    (take empty_semaphore waiting
      ≡ ok (
        record empty_semaphore { wait_head = 3 },
        trigger_pendsv (record waiting { tasks = set_state waiting.tasks 3 (blocked 1) }),
      ))
    × IsSemaphore
        (record empty_semaphore { wait_head = 3 })
        (record waiting { tasks = set_state waiting.tasks 3 (blocked 1) })
        (3 ∷ 1 ∷ 2 ∷ [])
take_blocks_example =
    take_blocks empty_semaphore waiting (1 ∷ 2 ∷ []) empty_semaphore-IsSemaphore refl
      (λ e. omega (arith, e)) refl

-- A free mutex.
abbrev free : Mutex ℕ
free = record { value = 5; owner = null; wait_head = null }

free-IsMutex : IsMutex free busy []
free-IsMutex = record { head = refl; links = tt; held = inl refl; apart = refl; inherits = tt }

lock_free_example :
    (lock free busy ≡ ok (record free { owner = 2 }, busy))
    × IsMutex (record free { owner = 2 }) busy []
lock_free_example = lock_free free busy free-IsMutex refl

-- Held by the idle task, with no task that waits.
abbrev held : Mutex ℕ
held = record { value = 5; owner = 3; wait_head = null }

held-IsMutex : IsMutex held busy []
held-IsMutex = record { head = refl; links = tt; held = inl refl; apart = refl; inherits = tt }

lock_blocks_example :
    (lock held busy
      ≡ ok (
        record held { wait_head = 2 },
        trigger_pendsv (record busy { tasks = parked held busy [] }),
      ))
    × (prio (parked held busy []) 3 ≡ min 255 7)
    × ((a : ℕ) → a ≢ 3 → prio (parked held busy []) a ≡ prio busy.tasks a)
    × ((parked held busy [] 2).state ≡ blocked null)
    × IsMutex (record held { wait_head = 2 }) (record busy { tasks = parked held busy [] }) (2 ∷ [])
lock_blocks_example =
    lock_blocks held busy [] held-IsMutex (λ e. omega (arith, e)) (λ e. omega (arith, e)) refl
      (λ e. omega (arith, e))

-- Held by a task 4, for which the tasks 1 and 2 wait.
abbrev contended : Mutex ℕ
contended = record { value = 5; owner = 4; wait_head = 1 }

abbrev boosted_owner : Kernel
boosted_owner = record waiting {
  tasks = λ a.
      if a == 4
      then record (waiting.tasks 3) { priority = 7; base_priority = 30 }
      else waiting.tasks a;
}

contended-IsMutex : IsMutex contended boosted_owner (1 ∷ 2 ∷ [])
contended-IsMutex = record {
  head = refl;
  links = ground arith;
  held = inr (λ e. omega (arith, e));
  apart = refl;
  inherits = (λ _. omega arith, (λ _. omega arith, tt));
}

unlock_grants_example :
    (b : ℕ) × (rest : List ℕ) × (g : Kernel) × (unlock_internal 2 contended boosted_owner
      ≡ ok (
        record contended { owner = b; wait_head = first rest },
        trigger_pendsv_if
            (ltb
              (prio (restored contended boosted_owner) b)
              (prio (restored contended boosted_owner) 3))
            g,
      ))
    × HandsOver (restored_kernel contended boosted_owner) (1 ∷ 2 ∷ []) b rest g
    × IsMutex (record contended { owner = b; wait_head = first rest }) g rest
unlock_grants_example =
    unlock_grants contended boosted_owner (λ e. omega (arith, e)) 2 1 (2 ∷ []) contended-IsMutex
      (λ e. omega (arith, e)) (omega arith)

-- The owner of `contended` holds a second lock.
abbrev second : Mutex ℕ
second = record { value = 5; owner = 4; wait_head = null }

unlock_nested_example :
    (unlock_internal 1 second boosted_owner
      ≡ ok (record second { owner = null }, restored_kernel second boosted_owner))
    × ¬ IsMutex contended (restored_kernel second boosted_owner) (1 ∷ 2 ∷ [])
unlock_nested_example =
    unlock_nested 1 second contended boosted_owner (1 ∷ 2 ∷ []) 2
      (record { head = refl; links = tt; held = inl refl; apart = refl; inherits = tt })
      (λ e. omega (arith, e)) refl refl (λ e. omega (arith, e)) (omega arith)
