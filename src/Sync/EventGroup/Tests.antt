-- ===== src/Sync/EventGroup/Tests.antt =====
-- An event group alone, and with tasks that wait.
use kangaroos.Base.{
  ℕ, ◌≡◌, refl, Bool, true, false, [], ◌∷◌, ◌==◌, arith, if◌then◌else◌, Option, none, some, ◌∈◌,
  ◌∉◌,
}
use kangaroos.Run.{Run, ok}
use kangaroos.Tcb.{null, Tasks, blocked, set_state, load, write, is_ready, set_wait_ptr}
use kangaroos.Kernel.{Kernel, trigger_pendsv}
use kangaroos.Scheduler.{unblock}
use kangaroos.Sync.EventGroup.{
  EventGroup, and_not, cut, scan_any, scan_all, set, set_from_isr, wait_any,
}
use kangaroos.Sync.EventGroup.Set.{AfterSet, set_lem}
use kangaroos.Sync.EventGroup.Laws.{IsEventGroup, parked, wait_any_blocks}
use kangaroos.Samples.{waiting}

abbrev group : EventGroup
group = record { bits = 4; wait_any_head = 1; wait_all_head = null }

group-IsEventGroup : IsEventGroup group waiting (1 ∷ 2 ∷ []) []
group-IsEventGroup = record {
  any_head = refl;
  all_head = refl;
  any_links = ground arith;
  all_links = tt;
}

wait_any_blocks_example :
    (wait_any group waiting 3
      ≡ ok (
        record group { wait_any_head = 3 },
        trigger_pendsv (record waiting {
          tasks = parked group waiting 3 (λ e. omega (arith, e)) (1 ∷ 2 ∷ []);
        }),
      ))
    × ((parked group waiting 3 (λ e. omega (arith, e)) (1 ∷ 2 ∷ []) 3).wait_ptr ≡ 3)
    × IsEventGroup
        (record group { wait_any_head = 3 })
        (record waiting { tasks = parked group waiting 3 (λ e. omega (arith, e)) (1 ∷ 2 ∷ []) })
        (3 ∷ 1 ∷ 2 ∷ [])
        []
wait_any_blocks_example =
    wait_any_blocks group waiting 3 (λ e. omega (arith, e)) (1 ∷ 2 ∷ []) [] group-IsEventGroup refl
      refl refl

-- Task 1 waits for any of the flags 3, task 2 for all of the flags 6.
abbrev both : Tasks
both a =
    if a == 1
    then record (waiting.tasks 1) { state = blocked null; wait_ptr = 3 }
    else (if a == 2 then record (waiting.tasks 2) { wait_ptr = 6 } else waiting.tasks a)

abbrev two_lists : EventGroup
two_lists = record { bits = 0; wait_any_head = 1; wait_all_head = 2 }

abbrev bits_of : Run (ℕ × EventGroup × Kernel) → Option (ℕ × Bool × Bool)
bits_of (ok (b, _, k)) = some (b, is_ready (k.tasks 1).state, is_ready (k.tasks 2).state)
bits_of _ = none

-- Flag 2 goes to task 1, so that the flags of task 2 are not all set.
set-two_lists :
    bits_of (set 3 two_lists (record waiting { tasks = both }) 6) ≡ some (4, true, false)
unfolding set set_from_isr scan_any scan_all cut and_not unblock load set_state write set_wait_ptr
set-two_lists = refl

abbrev on_both : Kernel
on_both = record waiting { tasks = both }

two_lists-IsEventGroup : IsEventGroup two_lists on_both (1 ∷ []) (2 ∷ [])
two_lists-IsEventGroup = record {
  any_head = refl;
  all_head = refl;
  any_links = ground arith;
  all_links = ground arith;
}

lists_apart : (a : ℕ) → a ∈ (1 ∷ []) → a ∉ (2 ∷ [])
lists_apart a i = ground arith

set_lem_example :
    (g : Kernel) × (set 3 two_lists on_both 6
      ≡ ok (4, record { bits = 4; wait_any_head = null; wait_all_head = 2 }, trigger_pendsv g))
    × AfterSet 3 two_lists on_both 6
        (1 ∷ [])
        (2 ∷ [])
        two_lists-IsEventGroup
        (λ e. omega (arith, e))
        lists_apart
        (omega arith)
        (omega arith)
        g
unfolding and_not
set_lem_example =
    set_lem 3 two_lists on_both 6 (1 ∷ []) (2 ∷ []) two_lists-IsEventGroup (λ e. omega (arith, e))
      lists_apart (omega arith) (omega arith)
