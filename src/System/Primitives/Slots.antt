-- ===== src/System/Primitives/Slots.antt =====
-- The channel of kangaroos/src/channel/mod.rs and the pool of kangaroos/src/mem/mod.rs are sequences of steps, if
-- they return.
use kangaroos.Base.{ℕ, ◌≡◌, ◌≢◌, refl, subst, Bool, false, inl, inr, ◌==◌, Bool-cases, ltb, Option}
use kangaroos.Run.{ok, ok-injective, >>=-eq-ok}
use kangaroos.Tcb.{null, load, set_wait_ptr}
use kangaroos.Kernel.{Kernel, trigger_pendsv_if}
use kangaroos.WaitList.{block_and_push, wait_list_pop_highest}
use kangaroos.Scheduler.{unblock}
use kangaroos.System.{pops, unblocks, marks, Reach, here, next, Reach-trans}
use kangaroos.System.Primitives.{second, third, triggers, wakes_and_triggers, waits_with}
use kangaroos.Slots.{Slots, store, assume_init}
use kangaroos.Channel.{
  Channel, hand_off, admit, pop, send_impl, try_send_impl, recv_impl, try_recv_impl,
}
use kangaroos.Pool.{Pool, no_slot, index, claim, alloc_blocking, box_drop}

module _ (f idle : ℕ) {T : Type 0} where
  hand_off-Reach :
      (f' : ℕ) (c : Channel T) (s : Slots T) (k : Kernel) (val : T)
      (u : Bool × Channel T × Slots T × Kernel)
      → hand_off f' c s k val ≡ ok u
      → Reach f idle k (trigger_pendsv_if u.0 u.3)
  unfolding hand_off
  hand_off-Reach f' c s k val u e =
      let (r, pop, e₁) = >>=-eq-ok (wait_list_pop_highest f' k.tasks c.recv_head) _ u e in
      let (t, _, e₂) = >>=-eq-ok (load r.2 r.0) _ u e₁ in
      let (w, wake, e₃) = >>=-eq-ok (unblock (record k { tasks = r.2 }) r.0) _ u e₂ in
      subst
        (λ (q : Bool × Channel T × Slots T × Kernel). Reach f idle k (trigger_pendsv_if q.0 q.3))
        (ok-injective _ u e₃) (wakes_and_triggers f idle f' c.recv_head r k w pop wake)

  admit-Reach :
      (f' n : ℕ) (c : Channel T) (s : Slots T) (k : Kernel) (u : Bool × Channel T × Kernel)
      → admit f' n c s k ≡ ok u
      → Reach f idle k (trigger_pendsv_if u.0 u.2)
  unfolding admit
  admit-Reach f' n c s k u e = elim (Bool-cases (c.send_head == null)) [
    | inl x ↦
        subst (λ (q : Bool × Channel T × Kernel). Reach f idle k (trigger_pendsv_if q.0 q.2))
          (ok-injective (false, c, k) u (rw x at e)) here
    | inr x ↦
        let (r, pop, e₁) =
          >>=-eq-ok (wait_list_pop_highest f' k.tasks c.send_head) _ u (rw x at e) in
        let (t, _, e₂) = >>=-eq-ok (load r.2 r.0) _ u e₁ in
        let (v, _, e₃) = >>=-eq-ok (assume_init (s t.wait_ptr)) _ u e₂ in
        let (w, wake, e₄) = >>=-eq-ok (unblock (record k { tasks = r.2 }) r.0) _ u e₃ in
        subst (λ (q : Bool × Channel T × Kernel). Reach f idle k (trigger_pendsv_if q.0 q.2))
          (ok-injective _ u e₄) (wakes_and_triggers f idle f' c.send_head r k w pop wake)
  ]

  pub send_impl-Reach :
      (f' n : ℕ) (c c' : Channel T) (s s' : Slots T) (k g : Kernel) (val : T) (src : ℕ)
      → k.current ≢ idle
      → send_impl f' n c s k val src ≡ ok (c', s', g)
      → Reach f idle k g
  unfolding send_impl
  send_impl-Reach f' n c c' s s' k g val src ne e = elim (Bool-cases (c.recv_head == null)) [
    | inr x ↦
        let (u, hands, e₁) =
          >>=-eq-ok (hand_off f' c (store s src val) k val) _ (c', s', g) (rw x at e) in
        subst (Reach f idle k) (third e₁) (hand_off-Reach f' c (store s src val) k val u hands)
    | inl x ↦ elim (Bool-cases (ltb c.count n)) [
      | inl y ↦ subst (Reach f idle k) (third (rw (x, y) at e)) here
      | inr y ↦
          let (t, _, e₁) = >>=-eq-ok (load k.tasks k.current) _ (c', s', g) (rw (x, y) at e) in
          let (r, pushes, e₂) =
            >>=-eq-ok (block_and_push (set_wait_ptr k.tasks k.current src) c.send_head k.current) _
              (c', s', g) e₁ in
          subst (Reach f idle k) (third e₂) (waits_with f idle src c.send_head r k ne pushes)
    ]
  ]

  pub try_send_impl-Reach :
      (f' n : ℕ) (c : Channel T) (s : Slots T) (k : Kernel) (val : T)
      (u : Bool × Channel T × Slots T × Kernel)
      → try_send_impl f' n c s k val ≡ ok u
      → Reach f idle k u.3
  unfolding try_send_impl
  try_send_impl-Reach f' n c s k val u e = elim (Bool-cases (c.recv_head == null)) [
    | inr x ↦
        let (v, hands, e₁) = >>=-eq-ok (hand_off f' c s k val) _ u (rw x at e) in
        subst (λ (q : Bool × Channel T × Slots T × Kernel). Reach f idle k q.3)
          (ok-injective _ u e₁) (hand_off-Reach f' c s k val v hands)
    | inl x ↦ elim (Bool-cases (ltb c.count n)) [
      | inl y ↦
          subst (λ (q : Bool × Channel T × Slots T × Kernel). Reach f idle k q.3)
            (ok-injective _ u (rw (x, y) at e)) here
      | inr y ↦
          subst (λ (q : Bool × Channel T × Slots T × Kernel). Reach f idle k q.3)
            (ok-injective _ u (rw (x, y) at e)) here
    ]
  ]

  pub recv_impl-Reach :
      (f' n : ℕ) (c c' : Channel T) (s : Slots T) (k g : Kernel) (slot : ℕ) (o : Option T)
      → k.current ≢ idle
      → recv_impl f' n c s k slot ≡ ok (o, c', g)
      → Reach f idle k g
  unfolding recv_impl
  recv_impl-Reach f' n c c' s k g slot o ne e = elim (Bool-cases (ltb 0 c.count)) [
    | inl x ↦
        let (v, _, e₁) = >>=-eq-ok (pop n c) _ (o, c', g) (rw x at e) in
        let (u, admits, e₂) = >>=-eq-ok (admit f' n v.1 s k) _ (o, c', g) e₁ in
        subst (Reach f idle k) (third e₂) (admit-Reach f' n v.1 s k u admits)
    | inr x ↦
        let (t, _, e₁) = >>=-eq-ok (load k.tasks k.current) _ (o, c', g) (rw x at e) in
        let (r, pushes, e₂) =
          >>=-eq-ok (block_and_push (set_wait_ptr k.tasks k.current slot) c.recv_head k.current) _
            (o, c', g) e₁ in
        subst (Reach f idle k) (third e₂) (waits_with f idle slot c.recv_head r k ne pushes)
  ]

  pub try_recv_impl-Reach :
      (f' n : ℕ) (c c' : Channel T) (s : Slots T) (k g : Kernel) (o : Option T)
      → try_recv_impl f' n c s k ≡ ok (o, c', g)
      → Reach f idle k g
  unfolding try_recv_impl
  try_recv_impl-Reach f' n c c' s k g o e = elim (Bool-cases (ltb 0 c.count)) [
    | inl x ↦
        let (v, _, e₁) = >>=-eq-ok (pop n c) _ (o, c', g) (rw x at e) in
        let (u, admits, e₂) = >>=-eq-ok (admit f' n v.1 s k) _ (o, c', g) e₁ in
        subst (Reach f idle k) (third e₂) (admit-Reach f' n v.1 s k u admits)
    | inr x ↦ subst (Reach f idle k) (third (rw x at e)) here
  ]

  pub alloc_blocking-Reach :
      (n : ℕ) (p p' : Pool T) (s s' : Slots T) (k g : Kernel) (val : T) (src : ℕ)
      → k.current ≢ idle
      → alloc_blocking n p s k val src ≡ ok (p', s', g)
      → Reach f idle k g
  unfolding alloc_blocking
  alloc_blocking-Reach n p p' s s' k g val src ne e = elim (Bool-cases (p.free_head == no_slot)) [
    | inr x ↦
        let (v, _, e₁) = >>=-eq-ok (claim n p val) _ (p', s', g) (rw x at e) in
        let (t, _, e₂) = >>=-eq-ok (load k.tasks k.current) _ (p', s', g) e₁ in
        subst (Reach f idle k) (third e₂) (next here (marks k.current v.0 refl))
    | inl x ↦
        let (t, _, e₁) = >>=-eq-ok (load k.tasks k.current) _ (p', s', g) (rw x at e) in
        let (r, pushes, e₂) =
          >>=-eq-ok (block_and_push (set_wait_ptr k.tasks k.current src) p.wait_head k.current) _
            (p', s', g) e₁ in
        subst (Reach f idle k) (third e₂) (waits_with f idle src p.wait_head r k ne pushes)
  ]

  pub box_drop-Reach :
      (f' n : ℕ) (p p' : Pool T) (s : Slots T) (k g : Kernel) (slot : ℕ)
      → box_drop f' n p s k slot ≡ ok (p', g)
      → Reach f idle k g
  unfolding box_drop
  box_drop-Reach f' n p p' s k g slot e =
      let (i, _, e₁) = >>=-eq-ok (index n slot) _ (p', g) e in
      let (_, _, e₂) = >>=-eq-ok (assume_init (p.nodes i)) _ (p', g) e₁ in
      elim (Bool-cases (p.wait_head == null)) [
        | inl x ↦ subst (Reach f idle k) (second (rw x at e₂)) here
        | inr x ↦
            let (r, pop, e₃) =
              >>=-eq-ok (wait_list_pop_highest f' k.tasks p.wait_head) _ (p', g) (rw x at e₂) in
            let (w, _, e₄) = >>=-eq-ok (load r.2 r.0) _ (p', g) e₃ in
            let (v, _, e₅) = >>=-eq-ok (assume_init (s w.wait_ptr)) _ (p', g) e₄ in
            let told = record k { tasks = set_wait_ptr r.2 r.0 i } in
            let (u, wake, e₆) = >>=-eq-ok (unblock told r.0) _ (p', g) e₅ in
            let popped = next here (pops f' p.wait_head r.0 r.1 r.2 pop refl) in
            let woken = next (next popped (marks r.0 i refl)) (unblocks r.0 u.0 wake) in
            subst (Reach f idle k) (second e₆)
              (Reach-trans f idle k u.1 _ woken (triggers f idle u.0 u.1))
      ]
