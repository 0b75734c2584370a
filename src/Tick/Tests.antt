-- ===== src/Tick/Tests.antt =====
-- The tick on three tasks.
use kangaroos.Base.{◌<◌, ◌≤◌, ◌≡◌, refl, true, false, arith}
use kangaroos.Run.{ok}
use kangaroos.Tcb.{ready, running, is_ready, set_state, write}
use kangaroos.Kernel.{Kernel}
use kangaroos.WaitList.Pop.{prio}
use kangaroos.Tick.{
  tick, next_tick, spend_slice, wake, find_peer, wake_one, preempts_one, spend_state, spend,
}
use kangaroos.Tick.Requests.{tick_quiet, tick_fair}
use kangaroos.Samples.{ids, calm, calm-IsScheduled, dawn}

-- The slice of task 2 expires and is filled again.
abbrev calm_later : Kernel
calm_later = record calm { tick = 6; tasks = set_state calm.tasks 2 (running 4) }

calm_ticks : tick 4 calm ≡ ok (false, calm_later)
unfolding tick spend_slice spend_state spend wake wake_one preempts_one find_peer set_state write
    next_tick
calm_ticks = refl

-- Task 1 wakes and preempts task 2.
abbrev dawn_later : Kernel
dawn_later = record dawn { tick = 6; tasks = set_state dawn.tasks 1 (ready 4) }

dawn_ticks : tick 4 dawn ≡ ok (true, dawn_later)
unfolding tick wake wake_one preempts_one set_state write next_tick
dawn_ticks = refl

idle_ready : is_ready (calm_later.tasks 3).state ≡ true
unfolding set_state write
idle_ready = refl

tick_quiet_example : prio calm_later.tasks 2 ≤ prio calm_later.tasks 3
tick_quiet_example =
    tick_quiet 4 calm calm_later ids 1 calm-IsScheduled refl (omega arith) 3 calm_ticks refl
      (λ e. omega (arith, e)) idle_ready

tick_fair_example : prio calm_later.tasks 2 < prio calm_later.tasks 3
tick_fair_example =
    tick_fair 4 calm calm_later ids 1 calm-IsScheduled refl (omega arith) 3 (omega arith) calm_ticks
      refl (λ e. omega (arith, e)) idle_ready
