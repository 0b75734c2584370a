-- ===== src/Channel/View.antt =====
-- What a channel of kangaroos/src/channel/mod.rs stands for: a queue, the tasks that wait with their values or
-- their slots, and the steps of `send` and `recv` on it.
use kangaroos.Base.{
  ℕ, ◌≡◌, ◌≢◌, ◌<◌, ◌⊎◌, true, Option, none, some, List, [], ◌∷◌, ◌++◌, length, ◌==◌, ltb,
  if◌then◌else◌, ◌∈◌,
}
use kangaroos.Pick.{Picks}
use kangaroos.Tcb.{Tasks, blocked}
use kangaroos.Kernel.{Kernel, trigger_pendsv_if}
use kangaroos.Sync.Handover.{HandsOver}
use kangaroos.WaitList.Links.{first, Links}
use kangaroos.WaitList.Pop.{prio, any_task}
use kangaroos.Slots.{Slots}
use kangaroos.Channel.{Channel}
use kangaroos.Channel.Ring.{IsRing}

-- A sender waits with its value in `parked`, and a receiver for a value in its stack slot `slot`.
pub record View (T : Type 0) : Type 0 where
  pub queue : List T
  pub senders : List ℕ
  pub receivers : List ℕ
  pub parked : ℕ → T
  pub slot : ℕ → ℕ

-- The channel stands for `v`. Senders wait at a full buffer alone, and receivers at an empty one.
pub record IsChannel {T : Type 0} (n : ℕ) (c : Channel T) (s : Slots T) (h : Tasks) (v : View T)
    : Type 0 where
  pub ring : IsRing n c v.queue
  pub send_head : c.send_head ≡ first v.senders
  pub recv_head : c.recv_head ≡ first v.receivers
  pub send_links : Links h v.senders
  pub recv_links : Links h v.receivers
  pub full : (v.senders ≡ []) ⊎ (length v.queue ≡ n)
  pub empty : (v.receivers ≡ []) ⊎ (v.queue ≡ [])
  pub values : (a : ℕ) → a ∈ v.senders → s (h a).wait_ptr ≡ some (v.parked a)
  pub places : (a : ℕ) → a ∈ v.receivers → (h a).wait_ptr ≡ v.slot a

-- The current task waits in front of the tasks `ws`, with the address `src`, and asks for a context switch.
-- Nothing else changes.
pub record Blocks (k : Kernel) (ws : List ℕ) (src : ℕ) (g : Kernel) : Type 0 where
  pub self :
      g.tasks k.current ≡ record (k.tasks k.current) { state = blocked (first ws); wait_ptr = src }
  pub others : (a : ℕ) → a ≢ k.current → g.tasks a ≡ k.tasks a
  pub current : g.current ≡ k.current
  pub tick : g.tick ≡ k.tick
  pub all_tasks : g.all_tasks ≡ k.all_tasks
  pub requests : g.pendsv ≡ true

-- The waiter `b` of `ws` is ready again, as `HandsOver` says, and a context switch is asked for exactly if
-- its priority is above that of the current task.
abbrev pub WakesOne : (k : Kernel) (ws : List ℕ) (b : ℕ) (rest : List ℕ) (g : Kernel) → Type 0
WakesOne k ws b rest g =
    (j : Kernel) × HandsOver k ws b rest j
    × (g ≡ trigger_pendsv_if (ltb (prio k.tasks b) (prio k.tasks k.current)) j)

-- `send` of `val` by the current task from the address `src`, with `s` the stack slots behind it: the value goes
-- into the slot of the first receiver of the least priority number, which is woken, or behind the queue, or
-- the sender waits with it.
pub data SendStep {T : Type 0} (n : ℕ) (k : Kernel) (src : ℕ) (val : T) (s : Slots T) (v : View T)
    (g : Kernel) : View T → Type 0 where
  handed :
      (b : ℕ) (p : Picks any_task (prio k.tasks) v.receivers b)
      → s (v.slot b) ≡ some val
      → WakesOne k v.receivers b (p.before ++ p.after) g
      → SendStep n k src val s v g (record v { receivers = p.before ++ p.after })
  queued :
      v.receivers ≡ []
      → length v.queue < n
      → g ≡ k
      → SendStep n k src val s v g (record v { queue = v.queue ++ (val ∷ []) })
  parks :
      v.receivers ≡ []
      → length v.queue ≡ n
      → Blocks k v.senders src g
      → SendStep n k src val s v g (record v {
        senders = k.current ∷ v.senders;
        parked = λ a. if a == k.current then val else v.parked a;
      })

-- `recv` by the current task, with its result: the oldest value, and the first sender of the least priority
-- number is woken, with its value behind the queue, or the receiver waits for a value in its slot.
pub data RecvStep {T : Type 0} (k : Kernel) (slot : ℕ) (v : View T) (g : Kernel)
    : Option T → View T → Type 0 where
  takes :
      (x : T) (xs : List T)
      → v.queue ≡ x ∷ xs
      → v.senders ≡ []
      → g ≡ k
      → RecvStep k slot v g (some x) (record v { queue = xs })
  admits :
      (x : T) (xs : List T) (b : ℕ) (p : Picks any_task (prio k.tasks) v.senders b)
      → v.queue ≡ x ∷ xs
      → WakesOne k v.senders b (p.before ++ p.after) g
      → RecvStep k slot v g
          (some x)
          (record v { queue = xs ++ (v.parked b ∷ []); senders = p.before ++ p.after })
  waits :
      v.queue ≡ []
      → v.senders ≡ []
      → Blocks k v.receivers slot g
      → RecvStep k slot v g none (record v {
        receivers = k.current ∷ v.receivers;
        slot = λ a. if a == k.current then slot else v.slot a;
      })
