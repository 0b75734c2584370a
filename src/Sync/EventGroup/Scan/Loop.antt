-- ===== src/Sync/EventGroup/Scan/Loop.antt =====
-- A scan as a whole.
use kangaroos.Base.{
  ℕ, zero, suc, ◌<◌, ◌≡◌, ◌≢◌, refl, sym, ap, ap₂, subst, ◌∙◌, Bool, true, false, ◌||◌, List, [],
  ◌∷◌, ◌++◌, append_assoc, arith, ◌∈◌, false≢true, has, has-append, length, Bool-cases, inl, inr,
  ==-false_of_ne, ltb,
}
use kangaroos.Run.{ok}
use kangaroos.Tcb.{null, blocked}
use kangaroos.Kernel.{Kernel}
use kangaroos.WaitList.Links.{first, Links}
use kangaroos.WaitList.Pop.{prio, Links-middle}
use kangaroos.Sync.EventGroup.{and_not, task_mask}
use kangaroos.Sync.EventGroup.Scan.Relink.{last_or_null, last_or_null-snoc, some≢none, notin_cons}
use kangaroos.Sync.EventGroup.Scan.{left, rest, urgent, loop, Scanned}
use kangaroos.Sync.EventGroup.Scan.Wake.{
  middle, hit_kernel, hit-Links, hit_same, hit-mask, hit_result, hit-Scanned, hit_step,
}

module _ (hit : ℕ → ℕ → Bool) (takes : ℕ → ℕ → ℕ) (told : ℕ → ℕ → ℕ) where
  -- The first task stays, and the scan of the others follows.
  miss-Scanned :
      (k : Kernel) (ps : List ℕ) (x : ℕ) (xs : List ℕ) (m : ℕ → ℕ) (bits : ℕ) (g : Kernel)
      → hit bits (m x) ≡ false
      → Scanned hit takes told k m bits (ps ++ (x ∷ [])) xs g
      → Scanned hit takes told k m bits ps (x ∷ xs) g
  miss-Scanned k ps x xs m bits g e s = record {
    links =
        rw e (
          subst (Links g.tasks) (append_assoc ps (x ∷ []) (rest hit takes told m bits xs)) s.links);
    woken = λ a v t. s.woken a v (rw e at t);
    waits = λ a t. s.waits a (rw e at t);
    others = λ a out out'.
        s.others a (ground (arith, has-append a ps (x ∷ []), out, notin_cons a x xs out'))
          (notin_cons a x xs out').1;
    current = s.current;
    tick = s.tick;
    all_tasks = s.all_tasks;
    pendsv = s.pendsv;
  }

  miss_step :
      (f bits : ℕ) (ps : List ℕ) (x : ℕ) (xs : List ℕ) (preempt : Bool) (k : Kernel) (m : ℕ → ℕ)
      (head prev : ℕ)
      → x ≢ null
      → (k.tasks x).state ≡ blocked (first xs)
      → task_mask k.tasks x ≡ m x
      → hit bits (m x) ≡ false
      → loop hit takes told (suc f) bits head prev x preempt k
        ≡ loop hit takes told f bits head x (first xs) preempt k
  unfolding loop
  miss_step f bits ps x xs preempt k m head prev nn state mask e =
      rw (==-false_of_ne x 0 nn, state, mask, e) refl

  miss_result :
      (f : ℕ) (k : Kernel) (ps : List ℕ) (x : ℕ) (xs : List ℕ) (m : ℕ → ℕ) (bits : ℕ)
      (preempt : Bool) (g : Kernel)
      → hit bits (m x) ≡ false
      → loop hit takes told f bits
          (first ((ps ++ (x ∷ [])) ++ xs))
          (last_or_null (ps ++ (x ∷ [])))
          (first xs)
          preempt
          k
        ≡ ok (
          left hit takes told m bits xs,
          first ((ps ++ (x ∷ [])) ++ rest hit takes told m bits xs),
          preempt || urgent hit takes told m (prio k.tasks) (prio k.tasks k.current) bits xs,
          g,
        )
      → loop hit takes told f bits (first (ps ++ (x ∷ xs))) x (first xs) preempt k
        ≡ ok (
          left hit takes told m bits (x ∷ xs),
          first (ps ++ rest hit takes told m bits (x ∷ xs)),
          preempt || urgent hit takes told m (prio k.tasks) (prio k.tasks k.current) bits (x ∷ xs),
          g,
        )
  miss_result f k ps x xs m bits preempt g e returns =
      ap₂ (λ h p. loop hit takes told f bits h p (first xs) preempt k)
        (ap first (sym (append_assoc ps (x ∷ []) xs))) (sym (last_or_null-snoc ps x))
      ∙ returns
      ∙ rw e (
          ap
            (λ ys. ok (
              left hit takes told m bits xs,
              first ys,
              preempt || urgent hit takes told m (prio k.tasks) (prio k.tasks k.current) bits xs,
              g,
            ))
            (append_assoc ps (x ∷ []) (rest hit takes told m bits xs)))

  or_false : (b : Bool) → b || false ≡ b
  or_false true = refl
  or_false false = refl

  pub loop_lem :
      (f bits : ℕ) (ps xs : List ℕ) (preempt : Bool) (k : Kernel) (m : ℕ → ℕ)
      → Links k.tasks (ps ++ xs)
      → k.current ≢ null
      → ((a : ℕ) → a ∈ xs → task_mask k.tasks a ≡ m a)
      → length xs < f
      → (g : Kernel) × (loop hit takes told f bits
            (first (ps ++ xs))
            (last_or_null ps)
            (first xs)
            preempt
            k
          ≡ ok (
            left hit takes told m bits xs,
            first (ps ++ rest hit takes told m bits xs),
            preempt || urgent hit takes told m (prio k.tasks) (prio k.tasks k.current) bits xs,
            g,
          ))
        × Scanned hit takes told k m bits ps xs g
  unfolding loop
  loop_lem zero bits ps xs preempt k m l running masks fuel = absurd (omega arith)
  loop_lem (suc f) bits ps [] preempt k m l running masks fuel = (
    k,
    rw (or_false preempt) refl,
    record {
      links = l;
      woken = λ a v t. absurd (some≢none v (sym t));
      waits = λ a t. refl;
      others = λ a out out'. refl;
      current = refl;
      tick = refl;
      all_tasks = refl;
      pendsv = refl;
    },
  )
  loop_lem (suc f) bits ps (x ∷ xs) preempt k m l running masks fuel =
      elim (Bool-cases (hit bits (m x))) [
        | inl e ↦
            let v = takes bits (m x) in
            let mid = middle hit takes told k running ps x xs l v in
            let (g, returns, scanned) =
              loop_lem f (and_not bits v) ps xs
                (preempt || ltb (prio k.tasks x) (prio k.tasks k.current))
                (hit_kernel hit takes told k running ps x xs l v) m
                (hit-Links hit takes told k running ps x xs l v)
                (λ z. running (sym (hit_same hit takes told k running ps x xs l v).0 ∙ z))
                (λ a i.
                  hit-mask hit takes told k running ps x xs l v a
                    (λ q. false≢true (sym mid.3 ∙ ap (λ b. has b xs) (sym q) ∙ i))
                  ∙ masks a (ground (arith, i)))
                (omega (arith, fuel)) in
            (
              g,
              hit_step hit takes told f bits ps x xs preempt k m l running (masks x (ground arith))
                    e
                  ∙ returns
                  ∙ hit_result hit takes told k running ps x xs l v m bits preempt g e refl,
              hit-Scanned hit takes told k running ps x xs l v m bits g e refl scanned,
            )
        | inr e ↦
            let (state, nn, _, _, _) = Links-middle k.tasks ps x xs l in
            let (g, returns, scanned) =
              loop_lem f bits (ps ++ (x ∷ [])) xs preempt k m
                (subst (Links k.tasks) (sym (append_assoc ps (x ∷ []) xs)) l) running
                (λ a i. masks a (ground (arith, i))) (omega (arith, fuel)) in
            (
              g,
              miss_step f bits ps x xs preempt k m (first (ps ++ (x ∷ xs))) (last_or_null ps) nn
                    state (masks x (ground arith)) e
                  ∙ miss_result f k ps x xs m bits preempt g e returns,
              miss-Scanned k ps x xs m bits g e scanned,
            )
      ]
