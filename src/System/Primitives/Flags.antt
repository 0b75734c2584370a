-- ===== src/System/Primitives/Flags.antt =====
-- The event group of kangaroos/src/sync/event_group.rs is a sequence of steps, if it returns.
use Prim.Native.Nat.{bit_and, bit_or}
use kangaroos.Base.{
  ℕ, zero, suc, ◌≡◌, ◌≢◌, refl, subst, Bool, false, ◌||◌, inl, inr, ◌==◌, Bool-cases,
}
use kangaroos.Run.{ok, ok-injective, >>=-eq-ok}
use kangaroos.Tcb.{Ptr, null, load, set_wait_ptr}
use kangaroos.Kernel.{Kernel}
use kangaroos.WaitList.{block_and_push}
use kangaroos.Scheduler.{unblock}
use kangaroos.System.{unblocks, marks, relinks, Reach, here, next, Reach-trans}
use kangaroos.System.Primitives.{second, third, triggers, waits_with}
use kangaroos.Tcb.{wait_next_of}
use kangaroos.Sync.EventGroup.{
  EventGroup, and_not, task_mask, cut, Scan, scan_any, scan_all, set_from_isr, set, wait_any,
  wait_all,
}

module _ (f idle : ℕ) where
  -- A waiter goes out of its list with the flags `v`, and is woken.
  flagged :
      (k : Kernel) (head prev n cur v : ℕ) (u : Bool × Kernel)
      → unblock (record k { tasks = set_wait_ptr (cut k.tasks head prev n).1 cur v }) cur ≡ ok u
      → Reach f idle k u.1
  flagged k head prev n cur v u wake =
      next (next (next here (relinks head prev n refl)) (marks cur v refl)) (unblocks cur u.0 wake)

  kept :
      (k : Kernel) (head prev n cur : ℕ) (u : Bool × Kernel)
      → unblock (record k { tasks = (cut k.tasks head prev n).1 }) cur ≡ ok u
      → Reach f idle k u.1
  kept k head prev n cur u wake =
      next (next here (relinks head prev n refl)) (unblocks cur u.0 wake)

  scan_any-Reach :
      (f' bits : ℕ) (head prev cur : Ptr) (p : Bool) (k : Kernel) (r : Scan)
      → scan_any f' bits head prev cur p k ≡ ok r
      → Reach f idle k r.3
  unfolding scan_any
  scan_any-Reach zero bits head prev cur p k r e = cc
  scan_any-Reach (suc f') bits head prev cur p k r e = elim (Bool-cases (cur == null)) [
    | inl x ↦
        subst (λ (q : Scan). Reach f idle k q.3) (ok-injective (bits, head, p, k) r (rw x at e))
          here
    | inr x ↦
        let (n, _, e₁) = >>=-eq-ok (wait_next_of (k.tasks cur).state) _ r (rw x at e) in
        let matched = bit_and bits (task_mask k.tasks cur) in
        let c = cut k.tasks head prev n in
        elim (Bool-cases (matched == 0)) [
          | inl y ↦ scan_any-Reach f' bits head cur n p k r (rw y at e₁)
          | inr y ↦
              let (u, wake, e₂) =
                >>=-eq-ok (unblock (record k { tasks = set_wait_ptr c.1 cur matched }) cur) _ r
                  (rw y at e₁) in
              Reach-trans f idle k u.1 r.3 (flagged k head prev n cur matched u wake)
                (scan_any-Reach f' (and_not bits matched) c.0 prev n (p || u.0) u.1 r e₂)
        ]
  ]

  scan_all-Reach :
      (f' bits : ℕ) (head prev cur : Ptr) (p : Bool) (k : Kernel) (r : Scan)
      → scan_all f' bits head prev cur p k ≡ ok r
      → Reach f idle k r.3
  unfolding scan_all
  scan_all-Reach zero bits head prev cur p k r e = cc
  scan_all-Reach (suc f') bits head prev cur p k r e = elim (Bool-cases (cur == null)) [
    | inl x ↦
        subst (λ (q : Scan). Reach f idle k q.3) (ok-injective (bits, head, p, k) r (rw x at e))
          here
    | inr x ↦
        let (n, _, e₁) = >>=-eq-ok (wait_next_of (k.tasks cur).state) _ r (rw x at e) in
        let mask = task_mask k.tasks cur in
        let c = cut k.tasks head prev n in
        elim (Bool-cases (bit_and bits mask == mask)) [
          | inr y ↦ scan_all-Reach f' bits head cur n p k r (rw y at e₁)
          | inl y ↦
              let (u, wake, e₂) =
                >>=-eq-ok (unblock (record k { tasks = c.1 }) cur) _ r (rw y at e₁) in
              Reach-trans f idle k u.1 r.3 (kept k head prev n cur u wake)
                (scan_all-Reach f' (and_not bits mask) c.0 prev n (p || u.0) u.1 r e₂)
        ]
  ]

  pub set_from_isr-Reach :
      (f' : ℕ) (e : EventGroup) (k : Kernel) (mask : ℕ) (u : Bool × EventGroup × Kernel)
      → set_from_isr f' e k mask ≡ ok u
      → Reach f idle k u.2
  unfolding set_from_isr
  set_from_isr-Reach f' e k mask u returns =
      let bits = bit_or e.bits mask in
      let (r, any, e₁) =
        >>=-eq-ok (scan_any f' bits e.wait_any_head null e.wait_any_head false k) _ u returns in
      let (s, all, e₂) =
        >>=-eq-ok (scan_all f' r.0 e.wait_all_head null e.wait_all_head r.2 r.3) _ u e₁ in
      subst (λ (q : Bool × EventGroup × Kernel). Reach f idle k q.2) (ok-injective _ u e₂)
        (Reach-trans f idle k r.3 s.3
          (scan_any-Reach f' bits e.wait_any_head null e.wait_any_head false k r any)
          (scan_all-Reach f' r.0 e.wait_all_head null e.wait_all_head r.2 r.3 s all))

  pub set-Reach :
      (f' : ℕ) (e e' : EventGroup) (k g : Kernel) (mask bits : ℕ)
      → set f' e k mask ≡ ok (bits, e', g)
      → Reach f idle k g
  unfolding set
  set-Reach f' e e' k g mask bits returns =
      let (u, sets, e₁) = >>=-eq-ok (set_from_isr f' e k mask) _ (bits, e', g) returns in
      subst (Reach f idle k) (third e₁) (
        Reach-trans f idle k u.2 _ (set_from_isr-Reach f' e k mask u sets)
          (triggers f idle u.0 u.2))

  pub wait_any-Reach :
      (e e' : EventGroup) (k g : Kernel) (mask : ℕ)
      → k.current ≢ idle
      → wait_any e k mask ≡ ok (e', g)
      → Reach f idle k g
  unfolding wait_any
  wait_any-Reach e e' k g mask ne returns =
      let (t, _, e₁) = >>=-eq-ok (load k.tasks k.current) _ (e', g) returns in
      let matched = bit_and e.bits mask in
      elim (Bool-cases (matched == 0)) [
        | inr y ↦
            subst (Reach f idle k) (second (rw y at e₁)) (next here (marks k.current matched refl))
        | inl y ↦
            let (r, pushes, e₂) =
              >>=-eq-ok
                (block_and_push (set_wait_ptr k.tasks k.current mask) e.wait_any_head k.current) _
                (e', g) (rw y at e₁) in
            subst (Reach f idle k) (second e₂)
              (waits_with f idle mask e.wait_any_head r k ne pushes)
      ]

  pub wait_all-Reach :
      (e e' : EventGroup) (k g : Kernel) (mask : ℕ)
      → k.current ≢ idle
      → wait_all e k mask ≡ ok (e', g)
      → Reach f idle k g
  unfolding wait_all
  wait_all-Reach e e' k g mask ne returns = elim (Bool-cases (bit_and e.bits mask == mask)) [
    | inl y ↦ subst (Reach f idle k) (second (rw y at returns)) here
    | inr y ↦
        let (t, _, e₁) = >>=-eq-ok (load k.tasks k.current) _ (e', g) (rw y at returns) in
        let (r, pushes, e₂) =
          >>=-eq-ok (block_and_push (set_wait_ptr k.tasks k.current mask) e.wait_all_head k.current)
            _ (e', g) e₁ in
        subst (Reach f idle k) (second e₂) (waits_with f idle mask e.wait_all_head r k ne pushes)
  ]
