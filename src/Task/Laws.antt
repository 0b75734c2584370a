-- ===== src/Task/Laws.antt =====
-- A task that yields, sleeps or exits changes its own state alone and asks for a context switch.
use kangaroos.Base.{ℕ, ◌+◌, ◌%◌, ◌^◌, ◌≡◌, ◌≢◌, ap, ◌∙◌, List, ==-false_of_ne}
use kangaroos.Run.{ok}
use kangaroos.Pick.{Nonnull-mem}
use kangaroos.Tcb.{
  TaskState, sleeping, dead, is_running, load, set_state, set_state_ne, set_state-all_next,
}
use kangaroos.Kernel.{Kernel, trigger_pendsv}
use kangaroos.Scheduler.Chain.{Chain-frame, Chain-Nonnull}
use kangaroos.Scheduler.Invariant.{IsScheduled}
use kangaroos.Task.{without_slice, yield_now, leave_cpu, sleep_until, sleep, exit}

pub current-ne-null : (k : Kernel) (xs : List ℕ) → IsScheduled k xs → k.current ≢ 0
current-ne-null k xs s = Nonnull-mem k.current xs (Chain-Nonnull k.tasks xs s.chain) s.known

-- The kernel after the current task has taken the state `t` and asked for a switch.
abbrev pub left_cpu : TaskState → Kernel → Kernel
left_cpu t k = trigger_pendsv (record k { tasks = set_state k.tasks k.current t })

leave_cpu-launched :
    (k : Kernel) (t : TaskState) → k.current ≢ 0 → leave_cpu t k ≡ ok (left_cpu t k)
unfolding leave_cpu load
leave_cpu-launched k t nn = rw (==-false_of_ne k.current 0 nn)

pub sleep_until-launched :
    (k : Kernel) (deadline : ℕ)
    → k.current ≢ 0
    → sleep_until deadline k ≡ ok (left_cpu (sleeping deadline) k)
unfolding sleep_until
sleep_until-launched k deadline nn = leave_cpu-launched k (sleeping deadline) nn

module _ (k : Kernel) (xs : List ℕ) (s : IsScheduled k xs) where
  pub left_cpu-IsScheduled : (t : TaskState) → IsScheduled (left_cpu t k) xs
  left_cpu-IsScheduled t = record {
    chain =
        Chain-frame k.tasks (set_state k.tasks k.current t) xs
          (set_state-all_next k.tasks k.current t) s.chain;
    head = s.head;
    known = s.known;
    alone = λ a m ne.
        ap (λ u. is_running u.state) (set_state_ne k.tasks k.current t a ne) ∙ s.alone a m ne;
  }

  leave_cpu-ok : (t : TaskState) → leave_cpu t k ≡ ok (left_cpu t k)
  leave_cpu-ok t = leave_cpu-launched k t (current-ne-null k xs s)

  pub yield_now-ok : yield_now k ≡ ok (left_cpu (without_slice (k.tasks k.current).state) k)
  unfolding yield_now load
  yield_now-ok = rw (==-false_of_ne k.current 0 (current-ne-null k xs s))

  pub sleep_until-ok : (deadline : ℕ) → sleep_until deadline k ≡ ok (left_cpu (sleeping deadline) k)
  unfolding sleep_until
  sleep_until-ok deadline = leave_cpu-ok (sleeping deadline)

  pub sleep-ok :
      (ticks : ℕ) → sleep ticks k ≡ ok (left_cpu (sleeping ((k.tick + ticks) % 2 ^ 64)) k)
  unfolding sleep
  sleep-ok ticks = sleep_until-ok ((k.tick + ticks) % 2 ^ 64)

  pub exit-ok : exit k ≡ ok (left_cpu dead k)
  unfolding exit
  exit-ok = leave_cpu-ok dead
