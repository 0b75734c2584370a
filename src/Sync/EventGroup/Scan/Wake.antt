-- ===== src/Sync/EventGroup/Scan/Wake.antt =====
-- One round of a scan in which a task is woken.
use kangaroos.Base.{
  ℕ, suc, ◌%◌, ◌^◌, ◌≡◌, ◌≢◌, refl, sym, ap, ap₂, ◌∙◌, Bool, true, false, ◌||◌, List, ◌∷◌, ◌++◌,
  arith, ◌==◌, ◌∉◌, false≢true, fun_ext, has, has-append, Bool-cases, inl, inr, ==-false_of_ne,
  eq_of_==, ne_of_==, ltb, some,
}
use kangaroos.Run.{Run, ok}
use kangaroos.Tcb.{
  null, Tcb, Tasks, ready, blocked, write, write_self, write_ne, set_state, set_wait_ptr,
}
use kangaroos.Kernel.{Kernel}
use kangaroos.WaitList.Links.{first, Links, Links-frame}
use kangaroos.WaitList.Pop.{prio, Links-middle}
use kangaroos.Scheduler.{unblock}
use kangaroos.Sync.Handover.{unblock-eq}
use kangaroos.Sync.EventGroup.{and_not, task_mask}
use kangaroos.Sync.EventGroup.Scan.Relink.{
  last_or_null, relink, cut_lem, relink-Links, relink-same, relink_ne, or_assoc, some_injective,
  some≢none, notin_cons,
}
use kangaroos.Sync.EventGroup.Scan.{scan_ok, left, rest, taken, urgent, noted, loop, awake, Scanned}

module _ (hit : ℕ → ℕ → Bool) (takes : ℕ → ℕ → ℕ) (told : ℕ → ℕ → ℕ) where
  awake_twice :
      (h : Tasks) (x v : ℕ)
      → set_state (noted hit takes told h x v) x (ready (noted hit takes told h x v x).time_slice)
        ≡ write h x (awake hit takes told (h x) v)
  unfolding set_state set_wait_ptr write
  awake_twice h x v = fun_ext λ a. ground arith

  noted-prio : (h : Tasks) (x v a : ℕ) → prio (noted hit takes told h x v) a ≡ prio h a
  unfolding set_wait_ptr write
  noted-prio h x v a = ground arith

  module _ (k : Kernel) (running : k.current ≢ null) (ps : List ℕ) (x : ℕ) (xs : List ℕ)
      (l : Links k.tasks (ps ++ (x ∷ xs))) (v : ℕ) where
    linked : Tasks
    linked = relink k.tasks ps (first xs)

    pub hit_kernel : Kernel
    hit_kernel = record k { tasks = write linked x (awake hit takes told (k.tasks x) v) }

    pub middle :
        ((k.tasks x).state ≡ blocked (first xs))
        × (x ≢ null)
        × (x ∉ ps)
        × (x ∉ xs)
        × Links k.tasks xs
    middle = Links-middle k.tasks ps x xs l

    linked_self : linked x ≡ k.tasks x
    unfolding linked
    linked_self = relink_ne k.tasks ps (first xs) x middle.2

    linked-prio : (a : ℕ) → prio (noted hit takes told linked x v) a ≡ prio k.tasks a
    unfolding linked
    linked-prio a =
        noted-prio linked x v a ∙ ap (λ t. t.priority) (relink-same k.tasks ps (first xs) a)

    answer : ℕ → ℕ → Tasks → Run (Bool × Kernel)
    answer p q h = ok (ltb p q, record k { tasks = h })

    hit-unblock :
        unblock (record k { tasks = noted hit takes told linked x v }) x
        ≡ ok (ltb (prio k.tasks x) (prio k.tasks k.current), hit_kernel)
    unfolding answer hit_kernel
    hit-unblock =
        unblock-eq (record k { tasks = noted hit takes told linked x v }) x middle.1 running
        ∙ ap₂
            (λ p q. answer p q (
              set_state (noted hit takes told linked x v) x
                (ready (noted hit takes told linked x v x).time_slice)))
            (linked-prio x) (linked-prio k.current)
        ∙ ap (answer (prio k.tasks x) (prio k.tasks k.current)) (
            awake_twice linked x v
            ∙ ap (λ t. write linked x (awake hit takes told t v)) linked_self)

    pub hit-Links : Links hit_kernel.tasks (ps ++ xs)
    unfolding hit_kernel linked
    hit-Links =
        let out : x ∉ (ps ++ xs) = ground (arith, has-append x ps xs, middle.2, middle.3) in
        Links-frame linked (write linked x (awake hit takes told (k.tasks x) v)) (ps ++ xs)
          (λ a i.
            ap (λ t. t.state)
              (write_ne linked x _ a
                (λ e. false≢true (sym out ∙ ap (λ b. has b (ps ++ xs)) (sym e) ∙ i))))
          (relink-Links k.tasks ps x xs l)

    hit_ne :
        (a : ℕ)
        → a ≢ x
        → hit_kernel.tasks a ≡ record (k.tasks a) { state = (hit_kernel.tasks a).state }
    unfolding hit_kernel linked
    hit_ne a ne =
        rw (write_ne linked x (awake hit takes told (k.tasks x) v) a ne)
          (relink-same k.tasks ps (first xs) a)

    hit-Scanned-ne : (a : ℕ) → a ≢ x → a ∉ ps → hit_kernel.tasks a ≡ k.tasks a
    unfolding hit_kernel linked
    hit-Scanned-ne a ne out =
        write_ne linked x (awake hit takes told (k.tasks x) v) a ne
        ∙ relink_ne k.tasks ps (first xs) a out

    hit_self : hit_kernel.tasks x ≡ awake hit takes told (k.tasks x) v
    unfolding hit_kernel
    hit_self = write_self linked x (awake hit takes told (k.tasks x) v)

    hit-prio : prio hit_kernel.tasks ≡ prio k.tasks
    unfolding hit_kernel
    hit-prio = fun_ext λ a. elim (Bool-cases (a == x)) [
      | inl e ↦ rw (eq_of_== a x e) (ap (λ t. t.priority) hit_self)
      | inr n ↦ ap (λ t. t.priority) (hit_ne a (ne_of_== a x n))
    ]

    pub hit-mask : (a : ℕ) → a ≢ x → task_mask hit_kernel.tasks a ≡ task_mask k.tasks a
    hit-mask a ne = ap (λ t. t.wait_ptr % 2 ^ 32) (hit_ne a ne)

    pub hit_same :
        (hit_kernel.current ≡ k.current)
        × (hit_kernel.tick ≡ k.tick)
        × (hit_kernel.all_tasks ≡ k.all_tasks)
        × (hit_kernel.pendsv ≡ k.pendsv)
    unfolding hit_kernel
    hit_same = (refl, refl, refl, refl)

    taken-here :
        (m : ℕ → ℕ) (bits a : ℕ)
        → hit bits (m x) ≡ true
        → takes bits (m x) ≡ v
        → a == x ≡ true
        → taken hit takes told m bits (x ∷ xs) a ≡ some v
    taken-here m bits a e is q = rw (e, q, is) refl

    taken-there :
        (m : ℕ → ℕ) (bits a : ℕ)
        → hit bits (m x) ≡ true
        → takes bits (m x) ≡ v
        → a == x ≡ false
        → taken hit takes told m bits (x ∷ xs) a ≡ taken hit takes told m (and_not bits v) xs a
    taken-there m bits a e is n = rw (e, n, is) refl

    -- The first task is woken, and the scan of the others follows.
    pub hit-Scanned :
        (m : ℕ → ℕ) (bits : ℕ) (g : Kernel)
        → hit bits (m x) ≡ true
        → takes bits (m x) ≡ v
        → Scanned hit takes told hit_kernel m (and_not bits v) ps xs g
        → Scanned hit takes told k m bits ps (x ∷ xs) g
    hit-Scanned m bits g e is s = record {
      links = rw (e, is) s.links;
      woken = λ a w t. elim (Bool-cases (a == x)) [
        | inl q ↦
            let same : v ≡ w = some_injective v w (sym (taken-here m bits a e is q) ∙ t) in
            rw (eq_of_== a x q)
              (s.others x middle.2 middle.3 ∙ hit_self ∙ ap (awake hit takes told (k.tasks x)) same)
        | inr n ↦
            s.woken a w (sym (taken-there m bits a e is n) ∙ t)
            ∙ ap (λ u. awake hit takes told u w) (hit_ne a (ne_of_== a x n))
      ];
      waits = λ a t. elim (Bool-cases (a == x)) [
        | inl q ↦ absurd (some≢none v (sym (taken-here m bits a e is q) ∙ t))
        | inr n ↦
            s.waits a (sym (taken-there m bits a e is n) ∙ t)
            ∙ ap {A = Tcb} {B = Tcb} (λ u. record u { state = (g.tasks a).state })
                (hit_ne a (ne_of_== a x n))
      ];
      others = λ a out out'.
          s.others a out (notin_cons a x xs out').1
          ∙ hit-Scanned-ne a (notin_cons a x xs out').0 out;
      current = s.current ∙ hit_same.0;
      tick = s.tick ∙ hit_same.1;
      all_tasks = s.all_tasks ∙ hit_same.2;
      pendsv = s.pendsv ∙ hit_same.3;
    }

    pub hit_result :
        (m : ℕ → ℕ) (bits : ℕ) (preempt : Bool) (g : Kernel)
        → hit bits (m x) ≡ true
        → takes bits (m x) ≡ v
        → scan_ok
            (left hit takes told m (and_not bits v) xs)
            (ps ++ rest hit takes told m (and_not bits v) xs)
            ((preempt || ltb (prio k.tasks x) (prio k.tasks k.current))
              || urgent hit takes told m
                  (prio hit_kernel.tasks)
                  (prio hit_kernel.tasks hit_kernel.current)
                  (and_not bits v)
                  xs)
            g
          ≡ scan_ok
              (left hit takes told m bits (x ∷ xs))
              (ps ++ rest hit takes told m bits (x ∷ xs))
              (preempt
                || urgent hit takes told m (prio k.tasks) (prio k.tasks k.current) bits (x ∷ xs))
              g
    hit_result m bits preempt g e is =
        let p = ltb (prio k.tasks x) (prio k.tasks k.current) in
        let same : urgent hit takes told m (prio hit_kernel.tasks)
              (prio hit_kernel.tasks hit_kernel.current) (and_not bits v) xs
            ≡ urgent hit takes told m (prio k.tasks) (prio k.tasks k.current) (and_not bits v) xs =
          ap₂ (λ pr c. urgent hit takes told m pr (pr c) (and_not bits v) xs) hit-prio hit_same.0 in
        rw (e, is)
          (ap
            (λ b.
              scan_ok (left hit takes told m (and_not bits v) xs)
                (ps ++ rest hit takes told m (and_not bits v) xs) b g)
            (or_assoc preempt p _ ∙ ap (λ u. preempt || (p || u)) same))

  pub hit_step :
      (f bits : ℕ) (ps : List ℕ) (x : ℕ) (xs : List ℕ) (preempt : Bool) (k : Kernel) (m : ℕ → ℕ)
      (l : Links k.tasks (ps ++ (x ∷ xs))) (running : k.current ≢ null)
      → task_mask k.tasks x ≡ m x
      → hit bits (m x) ≡ true
      → loop hit takes told (suc f) bits (first (ps ++ (x ∷ xs))) (last_or_null ps) x preempt k
        ≡ loop hit takes told f
            (and_not bits (takes bits (m x)))
            (first (ps ++ xs))
            (last_or_null ps)
            (first xs)
            (preempt || ltb (prio k.tasks x) (prio k.tasks k.current))
            (hit_kernel k running ps x xs l (takes bits (m x)))
  unfolding loop linked
  hit_step f bits ps x xs preempt k m l running mask e =
      let v = takes bits (m x) in
      rw
        (
          ==-false_of_ne x 0 (middle k running ps x xs l v).1,
          (middle k running ps x xs l v).0,
          mask,
          e,
          cut_lem k.tasks ps x xs l,
          hit-unblock k running ps x xs l v,
        )
        refl
