-- ===== src/Pool.antt =====
-- kangaroos/src/mem/mod.rs: a pool of `n` slots. An index is a `u8`, 255 ends the free list. The drop
-- of a value (`T::drop`) is not modelled: the slot's value is gone behind it.
pub mod Laws
pub mod View
pub mod Dropping
pub mod Allocating
mod Tests
use kangaroos.Base.{
  ℕ, zero, suc, ◌+◌, Bool, true, false, not, Option, none, some, ◌==◌, ltb, leb, if◌then◌else◌,
}
use kangaroos.Run.{Run, ok, panic, out_of_fuel, ◌>>=◌}
use kangaroos.Tcb.{Ptr, null, Tasks, load, set_wait_ptr}
use kangaroos.Kernel.{Kernel, trigger_pendsv, trigger_pendsv_if}
use kangaroos.Slots.{Slots, store, erase, assume_init}
use kangaroos.WaitList.{block_and_push, wait_list_pop_highest}
use kangaroos.Scheduler.{unblock}

abbrev pub no_slot : ℕ
no_slot = 255

pub record Pool (T : Type 0) : Type 0 where
  pub nodes : Slots T
  pub next : ℕ → ℕ
  pub free_head : ℕ
  pub wait_head : Ptr

-- An index into an array of `n` elements.
abbrev pub index : (n i : ℕ) → Run ℕ
index n i = if ltb i n then ok i else panic

pub set_next : (ℕ → ℕ) → ℕ → ℕ → ℕ → ℕ
set_next next i v j = if j == i then v else next j

-- The walk of `available`.
count_free : ℕ → (n : ℕ) → (ℕ → ℕ) → (count cur : ℕ) → Run ℕ
count_free zero n next count cur = out_of_fuel
count_free (suc f) n next count cur =
    if cur == no_slot
    then ok count
    else do i ← index n cur; count_free f n next (count + 1) (next i)

module _ {T : Type 0} where
  pub new : (n : ℕ) → Run (Pool T)
  new n =
      if not (leb n 255)
      then panic
      else ok (record {
        nodes = λ i. none;
        next = λ i. if ltb (i + 1) n then i + 1 else no_slot;
        free_head = if n == 0 then no_slot else 0;
        wait_head = null;
      })

  -- The first free slot gets the value.
  pub claim : (n : ℕ) → Pool T → T → Run (ℕ × Pool T)
  claim n p val = do
    s ← index n p.free_head
    ok (s, record p { free_head = p.next s; nodes = store p.nodes s val })

  -- The slot of the box.
  pub alloc : (n : ℕ) → Pool T → (val : T) → Run (Option ℕ × Pool T)
  alloc n p val =
      if not (p.free_head == no_slot)
      then (do (s, p') ← claim n p val; ok (some s, p'))
      else ok (none, p)

  -- The value lies in the caller's stack slot `src`. Up to the return, or to the context switch of a
  -- task that blocks; the result is behind it in `wait_ptr`.
  unfoldable pub alloc_blocking :
      (n : ℕ) → Pool T → Slots T → Kernel → (val : T) → (src : ℕ) → Run (Pool T × Slots T × Kernel)
  alloc_blocking n p stack k val src =
      if not (p.free_head == no_slot)
      then (do
        (s, p') ← claim n p val
        _ ← load k.tasks k.current
        ok (p', store stack src val, record k { tasks = set_wait_ptr k.tasks k.current s }))
      else (do
        _ ← load k.tasks k.current
        (head, h) ← block_and_push (set_wait_ptr k.tasks k.current src) p.wait_head k.current
        ok (
          record p { wait_head = head },
          store stack src val,
          trigger_pendsv (record k { tasks = h }),
        ))

  pub available : ℕ → (n : ℕ) → Pool T → Run ℕ
  available f n p = count_free f n p.next 0 p.free_head

  -- The box is dropped: a waiter gets the slot, with the value from its stack, or it is free.
  unfoldable pub box_drop :
      ℕ → (n : ℕ) → Pool T → Slots T → Kernel → (slot : ℕ) → Run (Pool T × Kernel)
  box_drop f n p stack k slot = do
    i ← index n slot
    _ ← assume_init (p.nodes i)
    let nodes = erase p.nodes i
    if not (p.wait_head == null)
        then (do
          (waiter, head, h) ← wait_list_pop_highest f k.tasks p.wait_head
          w ← load h waiter
          val ← assume_init (stack w.wait_ptr)
          (need_preempt, k') ← unblock (record k { tasks = set_wait_ptr h waiter i }) waiter
          ok (
            record p { nodes = store nodes i val; wait_head = head },
            trigger_pendsv_if need_preempt k',
          ))
        else ok (record p { nodes = nodes; next = set_next p.next i p.free_head; free_head = i }, k)
