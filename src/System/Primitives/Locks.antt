-- ===== src/System/Primitives/Locks.antt =====
-- The semaphore, the mutex, the condition variable and the `Once` are sequences of steps, if they return.
use kangaroos.Base.{
  ℕ, zero, suc, ◌≡◌, ◌≢◌, refl, subst, Bool, false, ◌||◌, inl, inr, ◌==◌, Bool-cases, ltb,
}
use kangaroos.Run.{ok, >>=-eq-ok}
use kangaroos.Tcb.{Ptr, null, load, set_priority}
use kangaroos.Kernel.{Kernel, trigger_pendsv_if}
use kangaroos.WaitList.{block_and_push, wait_list_pop_highest}
use kangaroos.Scheduler.{unblock}
use kangaroos.Sync.Semaphore.{Semaphore, take, give}
use kangaroos.Sync.Mutex.{Mutex, inherit, lock, unlock_internal}
use kangaroos.Sync.Condvar.{Condvar, wait, notify_one, notify_all}
use kangaroos.Sync.Drain.{drain}
use kangaroos.Sync.Once.{OnceState, unstarted, running, done, Once, enter_in, enter, finish}
use kangaroos.System.{blocks, reprioritises, requests, Reach, here, next, Reach-trans}
use kangaroos.System.Primitives.{second, third, triggers, wakes, wakes_and_triggers, waits}

module _ (f idle : ℕ) where
  pub take-Reach :
      (s s' : Semaphore) (k g : Kernel)
      → k.current ≢ idle
      → take s k ≡ ok (s', g)
      → Reach f idle k g
  unfolding take
  take-Reach s s' k g ne e = elim (Bool-cases (ltb 0 s.count)) [
    | inl c ↦ subst (Reach f idle k) (second (rw c at e)) here
    | inr c ↦
        let (r, pushes, e₁) =
          >>=-eq-ok (block_and_push k.tasks s.wait_head k.current) _ (s', g) (rw c at e) in
        subst (Reach f idle k) (second e₁) (waits f idle s.wait_head r k ne pushes)
  ]

  pub give-Reach :
      (f' : ℕ) (s s' : Semaphore) (k g : Kernel) → give f' s k ≡ ok (s', g) → Reach f idle k g
  unfolding give
  give-Reach f' s s' k g e = elim (Bool-cases (s.wait_head == null)) [
    | inr c ↦
        let (r, pop, e₁) =
          >>=-eq-ok (wait_list_pop_highest f' k.tasks s.wait_head) _ (s', g) (rw c at e) in
        let (u, wake, e₂) = >>=-eq-ok (unblock (record k { tasks = r.2 }) r.0) _ (s', g) e₁ in
        subst (Reach f idle k) (second e₂) (wakes_and_triggers f idle f' s.wait_head r k u pop wake)
    | inl c ↦ elim (Bool-cases (ltb s.count s.max)) [
      | inl d ↦ subst (Reach f idle k) (second (rw (c, d) at e)) here
      | inr d ↦ subst (Reach f idle k) (second (rw (c, d) at e)) here
    ]
  ]

  inherits :
      (k : Kernel) (owner p q : ℕ) → Reach f idle k (record k { tasks = inherit k.tasks owner p q })
  unfolding inherit
  inherits k owner p q = elim (Bool-cases (ltb q p)) [
    | inl c ↦ rw c (next here (reprioritises owner q refl))
    | inr c ↦ rw c here
  ]

  pub lock-Reach :
      {T : Type 0} (m m' : Mutex T) (k g : Kernel)
      → k.current ≢ idle
      → lock m k ≡ ok (m', g)
      → Reach f idle k g
  unfolding lock
  lock-Reach m m' k g ne e = elim (Bool-cases (m.owner == null)) [
    | inl c ↦ subst (Reach f idle k) (second (rw c at e)) here
    | inr c ↦
        let (cur, _, e₁) = >>=-eq-ok (load k.tasks k.current) _ (m', g) (rw c at e) in
        let (own, _, e₂) = >>=-eq-ok (load k.tasks m.owner) _ (m', g) e₁ in
        let h = inherit k.tasks m.owner own.priority cur.priority in
        let (r, pushes, e₃) = >>=-eq-ok (block_and_push h m.wait_head k.current) _ (m', g) e₂ in
        let boosted = record k { tasks = h } in
        subst (Reach f idle k) (second e₃) (
          Reach-trans f idle k boosted _ (inherits k m.owner own.priority cur.priority)
            (waits f idle m.wait_head r boosted ne pushes))
  ]

  pub unlock_internal-Reach :
      {T : Type 0} (f' : ℕ) (m m' : Mutex T) (k g : Kernel)
      → unlock_internal f' m k ≡ ok (m', g)
      → Reach f idle k g
  unfolding unlock_internal
  unlock_internal-Reach f' m m' k g e =
      let (own, _, e₁) = >>=-eq-ok (load k.tasks m.owner) _ (m', g) e in
      let restored = record k { tasks = set_priority k.tasks m.owner own.base_priority } in
      let first_step : Reach f idle k restored =
        next here (reprioritises m.owner own.base_priority refl) in
      elim (Bool-cases (m.wait_head == null)) [
        | inl c ↦ subst (Reach f idle k) (second (rw c at e₁)) first_step
        | inr c ↦
            let (r, pop, e₂) =
              >>=-eq-ok (wait_list_pop_highest f' restored.tasks m.wait_head) _ (m', g)
                (rw c at e₁) in
            let (u, wake, e₃) =
              >>=-eq-ok (unblock (record restored { tasks = r.2 }) r.0) _ (m', g) e₂ in
            subst (Reach f idle k) (second e₃) (
              Reach-trans f idle k restored _ first_step
                (wakes_and_triggers f idle f' m.wait_head r restored u pop wake))
      ]

  pub wait-Reach :
      {T : Type 0} (f' : ℕ) (c c' : Condvar) (m m' : Mutex T) (k g : Kernel)
      → k.current ≢ idle
      → wait f' c m k ≡ ok (c', m', g)
      → Reach f idle k g
  unfolding wait
  wait-Reach f' c c' m m' k g ne e =
      let (r, pushes, e₁) =
        >>=-eq-ok (block_and_push k.tasks c.wait_head k.current) _ (c', m', g) e in
      let blocked_one = record k { tasks = r.1 } in
      let (u, unlocks, e₂) = >>=-eq-ok (unlock_internal f' m blocked_one) _ (c', m', g) e₁ in
      let freed =
        Reach-trans f idle k blocked_one u.1 (next here (blocks c.wait_head r.0 r.1 ne pushes refl))
          (unlock_internal-Reach f' m u.0 blocked_one u.1 unlocks) in
      subst (Reach f idle k) (third e₂) (next freed (requests refl))

  pub notify_one-Reach :
      (f' : ℕ) (c c' : Condvar) (k g : Kernel) → notify_one f' c k ≡ ok (c', g) → Reach f idle k g
  unfolding notify_one
  notify_one-Reach f' c c' k g e = elim (Bool-cases (c.wait_head == null)) [
    | inl n ↦ subst (Reach f idle k) (second (rw n at e)) here
    | inr n ↦
        let (r, pop, e₁) =
          >>=-eq-ok (wait_list_pop_highest f' k.tasks c.wait_head) _ (c', g) (rw n at e) in
        let (u, wake, e₂) = >>=-eq-ok (unblock (record k { tasks = r.2 }) r.0) _ (c', g) e₁ in
        subst (Reach f idle k) (second e₂) (wakes_and_triggers f idle f' c.wait_head r k u pop wake)
  ]

  drain-Reach :
      (f' : ℕ) (p q : Bool) (k g : Kernel) (head : Ptr)
      → drain f' p k head ≡ ok (q, g)
      → Reach f idle k g
  unfolding drain
  drain-Reach zero p q k g head e = cc
  drain-Reach (suc f') p q k g head e = elim (Bool-cases (head == null)) [
    | inl n ↦ subst (Reach f idle k) (second (rw n at e)) here
    | inr n ↦
        let (r, pop, e₁) = >>=-eq-ok (wait_list_pop_highest f' k.tasks head) _ (q, g) (rw n at e) in
        let (u, wake, e₂) = >>=-eq-ok (unblock (record k { tasks = r.2 }) r.0) _ (q, g) e₁ in
        Reach-trans f idle k u.1 g (wakes f idle f' head r k u pop wake)
          (drain-Reach f' (p || u.0) q u.1 g r.1 e₂)
  ]

  drain_and_trigger :
      (f' : ℕ) (u : Bool × Kernel) (k : Kernel) (head : Ptr)
      → drain f' false k head ≡ ok u
      → Reach f idle k (trigger_pendsv_if u.0 u.1)
  drain_and_trigger f' u k head e =
      Reach-trans f idle k u.1 _ (drain-Reach f' false u.0 k u.1 head e) (triggers f idle u.0 u.1)

  pub notify_all-Reach :
      (f' : ℕ) (c c' : Condvar) (k g : Kernel) → notify_all f' c k ≡ ok (c', g) → Reach f idle k g
  unfolding notify_all
  notify_all-Reach f' c c' k g e =
      let (u, drains, e₁) = >>=-eq-ok (drain f' false k c.wait_head) _ (c', g) e in
      subst (Reach f idle k) (second e₁) (drain_and_trigger f' u k c.wait_head drains)

  enter_in-Reach :
      (s : OnceState) (o o' : Once) (k g : Kernel) (am : Bool)
      → k.current ≢ idle
      → enter_in s o k ≡ ok (am, o', g)
      → Reach f idle k g
  unfolding enter_in
  enter_in-Reach unstarted o o' k g am ne e = subst (Reach f idle k) (third e) here
  enter_in-Reach done o o' k g am ne e = subst (Reach f idle k) (third e) here
  enter_in-Reach running o o' k g am ne e =
      let (r, pushes, e₁) =
        >>=-eq-ok (block_and_push k.tasks o.wait_head k.current) _ (am, o', g) e in
      subst (Reach f idle k) (third e₁) (waits f idle o.wait_head r k ne pushes)

  pub enter-Reach :
      (o o' : Once) (k g : Kernel) (am : Bool)
      → k.current ≢ idle
      → enter o k ≡ ok (am, o', g)
      → Reach f idle k g
  unfolding enter
  enter-Reach o o' k g am ne e = enter_in-Reach o.state o o' k g am ne e

  pub finish-Reach :
      (f' : ℕ) (o o' : Once) (k g : Kernel) → finish f' o k ≡ ok (o', g) → Reach f idle k g
  unfolding finish
  finish-Reach f' o o' k g e =
      let (u, drains, e₁) = >>=-eq-ok (drain f' false k o.wait_head) _ (o', g) e in
      subst (Reach f idle k) (second e₁) (drain_and_trigger f' u k o.wait_head drains)
