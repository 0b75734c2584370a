-- ===== src/Channel.antt =====
-- kangaroos/src/channel/mod.rs: a bounded channel of capacity `n`.
pub mod Ring
pub mod Laws
pub mod View
pub mod Parked
pub mod Sending
pub mod Receiving
pub mod Trying
pub mod Handles
mod Tests
use kangaroos.Base.{
  ℕ, ◌+◌, ◌-◌, ◌%◌, Bool, true, false, not, ◌||◌, Option, none, some, ◌==◌, ltb, if◌then◌else◌,
}
use kangaroos.Run.{Run, ok, uninit_read, ◌>>=◌}
use kangaroos.Tcb.{Ptr, null, Tasks, load, set_wait_ptr}
use kangaroos.Kernel.{Kernel, trigger_pendsv, trigger_pendsv_if}
use kangaroos.Slots.{Slots, store, assume_init}
use kangaroos.WaitList.{block_and_push, wait_list_pop_highest}
use kangaroos.Scheduler.{unblock}

pub record Channel (T : Type 0) : Type 0 where
  pub buf : Slots T
  pub head : ℕ
  pub tail : ℕ
  pub count : ℕ
  pub send_head : Ptr
  pub recv_head : Ptr

module _ {T : Type 0} where
  abbrev pub new : Channel T
  new = record {
    buf = λ i. none;
    head = 0;
    tail = 0;
    count = 0;
    send_head = null;
    recv_head = null;
  }

  -- Room in the ring buffer.
  pub push : (n : ℕ) → Channel T → T → Channel T
  unfolding store
  push n c v = record c { buf = store c.buf c.tail v; tail = (c.tail + 1) % n; count = c.count + 1 }

  -- The value at the head, and the buffer behind it.
  pub pop : (n : ℕ) → Channel T → Run (T × Channel T)
  pop n c = do
    v ← assume_init (c.buf c.head)
    ok (v, record c { head = (c.head + 1) % n; count = c.count - 1 })

  -- Direct hand-off to the blocked receiver of the highest priority: `need_preempt`, and the state.
  unfoldable pub hand_off :
      ℕ → Channel T → Slots T → Kernel → T → Run (Bool × Channel T × Slots T × Kernel)
  hand_off f c s k val = do
    (recv, head, h) ← wait_list_pop_highest f k.tasks c.recv_head
    r ← load h recv
    (need_preempt, k') ← unblock (record k { tasks = h }) recv
    ok (need_preempt, record c { recv_head = head }, store s r.wait_ptr val, k')

  -- The freed slot admits one blocked sender: `need_preempt`, and the state.
  unfoldable pub admit :
      ℕ → (n : ℕ) → Channel T → Slots T → Kernel → Run (Bool × Channel T × Kernel)
  admit f n c s k = if c.send_head == null then ok (false, c, k) else do
    (sender, head, h) ← wait_list_pop_highest f k.tasks c.send_head
    t ← load h sender
    v ← assume_init (s t.wait_ptr)
    (need_preempt, k') ← unblock (record k { tasks = h }) sender
    ok (need_preempt, push n (record c { send_head = head }) v, k')

  -- The value lies in the caller's stack slot `src`. Up to the return, or to the context switch of a
  -- task that blocks.
  unfoldable pub send_impl :
      ℕ
      → (n : ℕ) → Channel T
      → Slots T
      → Kernel
      → (val : T) → (src : ℕ) → Run (Channel T × Slots T × Kernel)
  send_impl f n c s k val src =
      if not (c.recv_head == null)
      then (do
        (need_preempt, c', s', k') ← hand_off f c (store s src val) k val
        ok (c', s', trigger_pendsv_if need_preempt k'))
      else (if ltb c.count n then ok (push n c val, store s src val, k) else (do
        _ ← load k.tasks k.current
        (head, h) ← block_and_push (set_wait_ptr k.tasks k.current src) c.send_head k.current
        ok (
          record c { send_head = head },
          store s src val,
          trigger_pendsv (record k { tasks = h }),
        )))

  unfoldable pub try_send_impl :
      ℕ
      → (n : ℕ) → Channel T
      → Slots T
      → Kernel
      → (val : T) → Run (Bool × Channel T × Slots T × Kernel)
  try_send_impl f n c s k val =
      if not (c.recv_head == null)
      then (do
        (need_preempt, c', s', k') ← hand_off f c s k val
        ok (true, c', s', trigger_pendsv_if need_preempt k'))
      else (if ltb c.count n then ok (true, push n c val, s, k) else ok (false, c, s, k))

  -- The value, or `none` for a receiver that blocks: its value will be in its stack slot `slot`.
  unfoldable pub recv_impl :
      ℕ → (n : ℕ) → Channel T → Slots T → Kernel → (slot : ℕ) → Run (Option T × Channel T × Kernel)
  recv_impl f n c s k slot =
      if ltb 0 c.count
      then (do
        (v, c₁) ← pop n c
        (need_preempt, c₂, k') ← admit f n c₁ s k
        ok (some v, c₂, trigger_pendsv_if need_preempt k'))
      else (do
        _ ← load k.tasks k.current
        (head, h) ← block_and_push (set_wait_ptr k.tasks k.current slot) c.recv_head k.current
        ok (none, record c { recv_head = head }, trigger_pendsv (record k { tasks = h })))

  unfoldable pub try_recv_impl :
      ℕ → (n : ℕ) → Channel T → Slots T → Kernel → Run (Option T × Channel T × Kernel)
  try_recv_impl f n c s k =
      if ltb 0 c.count
      then (do
        (v, c₁) ← pop n c
        (need_preempt, c₂, k') ← admit f n c₁ s k
        ok (some v, c₂, trigger_pendsv_if need_preempt k'))
      else ok (none, c, k)
