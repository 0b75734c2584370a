-- ===== src/System/Traces.antt =====
-- Whole runs of the system: steps of the kernel and calls of the primitives, by tasks and interrupts, in any
-- order.
use kangaroos.Base.{ℕ, ◌≡◌, ◌≢◌, Bool, Option}
use kangaroos.Run.{ok}
use kangaroos.Kernel.{Kernel}
use kangaroos.Slots.{Slots}
use kangaroos.Sync.Semaphore.{Semaphore, take, give}
use kangaroos.Sync.Mutex.{Mutex, lock, unlock_internal}
use kangaroos.Sync.Condvar.{Condvar, wait, notify_one, notify_all}
use kangaroos.Sync.Once.{Once, enter, finish}
use kangaroos.Channel.{Channel, send_impl, try_send_impl, recv_impl, try_recv_impl}
use kangaroos.Pool.{Pool, alloc_blocking, box_drop}
use kangaroos.Sync.EventGroup.{EventGroup, set_from_isr, set, wait_any, wait_all}
use kangaroos.System.{Step, Reach, here, next, Reach-trans}
use kangaroos.System.Primitives.Locks.{
  take-Reach, give-Reach, lock-Reach, unlock_internal-Reach, wait-Reach, notify_one-Reach,
  notify_all-Reach, enter-Reach, finish-Reach,
}
use kangaroos.System.Primitives.Slots.{
  send_impl-Reach, try_send_impl-Reach, recv_impl-Reach, try_recv_impl-Reach, alloc_blocking-Reach,
  box_drop-Reach,
}
use kangaroos.System.Primitives.Flags.{
  set_from_isr-Reach, set-Reach, wait_any-Reach, wait_all-Reach,
}

-- A step, or a call of a primitive on any object. The task `idle` makes no call that may block.
pub data Act (f idle : ℕ) (k g : Kernel) : Type 1 where
  steps : Step f idle k g → Act f idle k g
  takes : (s s' : Semaphore) → k.current ≢ idle → take s k ≡ ok (s', g) → Act f idle k g
  gives : (f' : ℕ) (s s' : Semaphore) → give f' s k ≡ ok (s', g) → Act f idle k g
  locks : {T : Type 0} (m m' : Mutex T) → k.current ≢ idle → lock m k ≡ ok (m', g) → Act f idle k g
  unlocks :
      {T : Type 0} (f' : ℕ) (m m' : Mutex T) → unlock_internal f' m k ≡ ok (m', g) → Act f idle k g
  waits :
      {T : Type 0} (f' : ℕ) (c c' : Condvar) (m m' : Mutex T)
      → k.current ≢ idle
      → wait f' c m k ≡ ok (c', m', g)
      → Act f idle k g
  notifies_one : (f' : ℕ) (c c' : Condvar) → notify_one f' c k ≡ ok (c', g) → Act f idle k g
  notifies_all : (f' : ℕ) (c c' : Condvar) → notify_all f' c k ≡ ok (c', g) → Act f idle k g
  enters :
      (o o' : Once) (am_initializer : Bool)
      → k.current ≢ idle
      → enter o k ≡ ok (am_initializer, o', g)
      → Act f idle k g
  finishes : (f' : ℕ) (o o' : Once) → finish f' o k ≡ ok (o', g) → Act f idle k g
  sends :
      {T : Type 0} (f' n : ℕ) (c c' : Channel T) (s s' : Slots T) (val : T) (src : ℕ)
      → k.current ≢ idle
      → send_impl f' n c s k val src ≡ ok (c', s', g)
      → Act f idle k g
  tries_send :
      {T : Type 0} (f' n : ℕ) (c c' : Channel T) (s s' : Slots T) (val : T) (sent : Bool)
      → try_send_impl f' n c s k val ≡ ok (sent, c', s', g)
      → Act f idle k g
  receives :
      {T : Type 0} (f' n : ℕ) (c c' : Channel T) (s : Slots T) (slot : ℕ) (o : Option T)
      → k.current ≢ idle
      → recv_impl f' n c s k slot ≡ ok (o, c', g)
      → Act f idle k g
  tries_receive :
      {T : Type 0} (f' n : ℕ) (c c' : Channel T) (s : Slots T) (o : Option T)
      → try_recv_impl f' n c s k ≡ ok (o, c', g)
      → Act f idle k g
  allocates :
      {T : Type 0} (n : ℕ) (p p' : Pool T) (s s' : Slots T) (val : T) (src : ℕ)
      → k.current ≢ idle
      → alloc_blocking n p s k val src ≡ ok (p', s', g)
      → Act f idle k g
  drops :
      {T : Type 0} (f' n : ℕ) (p p' : Pool T) (s : Slots T) (slot : ℕ)
      → box_drop f' n p s k slot ≡ ok (p', g)
      → Act f idle k g
  sets_from_isr :
      (f' : ℕ) (e e' : EventGroup) (mask : ℕ) (preempt : Bool)
      → set_from_isr f' e k mask ≡ ok (preempt, e', g)
      → Act f idle k g
  sets :
      (f' : ℕ) (e e' : EventGroup) (mask bits : ℕ)
      → set f' e k mask ≡ ok (bits, e', g)
      → Act f idle k g
  waits_any :
      (e e' : EventGroup) (mask : ℕ)
      → k.current ≢ idle
      → wait_any e k mask ≡ ok (e', g)
      → Act f idle k g
  waits_all :
      (e e' : EventGroup) (mask : ℕ)
      → k.current ≢ idle
      → wait_all e k mask ≡ ok (e', g)
      → Act f idle k g

pub data Trace (f idle : ℕ) (k : Kernel) : Kernel → Type 1 where
  start : Trace f idle k k
  then_act : {g h : Kernel} → Trace f idle k g → Act f idle g h → Trace f idle k h

Act-Reach : (f idle : ℕ) (k g : Kernel) → Act f idle k g → Reach f idle k g
Act-Reach f idle k g (steps s) = next here s
Act-Reach f idle k g (takes s s' ne e) = take-Reach f idle s s' k g ne e
Act-Reach f idle k g (gives f' s s' e) = give-Reach f idle f' s s' k g e
Act-Reach f idle k g (locks m m' ne e) = lock-Reach f idle m m' k g ne e
Act-Reach f idle k g (unlocks f' m m' e) = unlock_internal-Reach f idle f' m m' k g e
Act-Reach f idle k g (waits f' c c' m m' ne e) = wait-Reach f idle f' c c' m m' k g ne e
Act-Reach f idle k g (notifies_one f' c c' e) = notify_one-Reach f idle f' c c' k g e
Act-Reach f idle k g (notifies_all f' c c' e) = notify_all-Reach f idle f' c c' k g e
Act-Reach f idle k g (enters o o' am ne e) = enter-Reach f idle o o' k g am ne e
Act-Reach f idle k g (finishes f' o o' e) = finish-Reach f idle f' o o' k g e
Act-Reach f idle k g (sends f' n c c' s s' val src ne e) =
    send_impl-Reach f idle f' n c c' s s' k g val src ne e
Act-Reach f idle k g (tries_send f' n c c' s s' val sent e) =
    try_send_impl-Reach f idle f' n c s k val (sent, c', s', g) e
Act-Reach f idle k g (receives f' n c c' s slot o ne e) =
    recv_impl-Reach f idle f' n c c' s k g slot o ne e
Act-Reach f idle k g (tries_receive f' n c c' s o e) =
    try_recv_impl-Reach f idle f' n c c' s k g o e
Act-Reach f idle k g (allocates n p p' s s' val src ne e) =
    alloc_blocking-Reach f idle n p p' s s' k g val src ne e
Act-Reach f idle k g (drops f' n p p' s slot e) = box_drop-Reach f idle f' n p p' s k g slot e
Act-Reach f idle k g (sets_from_isr f' v v' mask p e) =
    set_from_isr-Reach f idle f' v k mask (p, v', g) e
Act-Reach f idle k g (sets f' v v' mask bits e) = set-Reach f idle f' v v' k g mask bits e
Act-Reach f idle k g (waits_any v v' mask ne e) = wait_any-Reach f idle v v' k g mask ne e
Act-Reach f idle k g (waits_all v v' mask ne e) = wait_all-Reach f idle v v' k g mask ne e

pub Trace-Reach : (f idle : ℕ) (k g : Kernel) → Trace f idle k g → Reach f idle k g
Trace-Reach f idle k g start = here
Trace-Reach f idle k g (then_act {g = h} t a) =
    Reach-trans f idle k h g (Trace-Reach f idle k h t) (Act-Reach f idle h g a)
