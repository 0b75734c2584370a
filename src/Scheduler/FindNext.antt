-- ===== src/Scheduler/FindNext.antt =====
-- `find_next` picks, in the rotation that starts behind `CURRENT`, the first eligible task with the
-- least priority number.
use kangaroos.Base.{
  ℕ, zero, suc, ◌<◌, ◌≡◌, ◌≢◌, refl, sym, ap, subst, append_assoc, ◌∙◌, Bool, true, false, ◌&&◌,
  ◌||◌, inl, inr, List, [], ◌∷◌, ◌++◌, arith, ◌==◌, if◌then◌else◌, ltb, ◌∈◌, length, length-append,
  Bool-cases, ==-false_of_ne, has, has-append,
}
use kangaroos.Run.{ok, panic}
use kangaroos.Pick.{
  Picks, Nonnull, NoneFit, best_of, better, best_of_zero, NoneFit-mem, Picks-mem, Nonnull-append,
  Nonnull-mem,
}
use kangaroos.Tcb.{Ptr, null, Tasks}
use kangaroos.Kernel.{Kernel}
use kangaroos.WaitList.Links.{first}
use kangaroos.WaitList.Pop.{prio}
use kangaroos.Scheduler.{eligible, pass, start, find_next}
use kangaroos.Scheduler.Chain.{
  Chain, Segment, head_or, Chain-Segment, Chain-Segment_all, head_or-first, first-append,
  Chain-middle, Chain-Nonnull,
}

abbrev pub fit : Tasks → ℕ → Bool
fit h a = eligible (h a).state

-- The best priority so far, `u8::MAX` for no task.
abbrev prio_or : Tasks → ℕ → ℕ
prio_or h b = if b == null then 255 else prio h b

-- The scan's test is that of `better`.
wins_iff :
    (h : Tasks) (best x : ℕ)
    → (eligible (h x).state && ((best == null) || ltb (h x).priority (prio_or h best)))
      ≡ (fit h x && ((best == null) || ltb (prio h x) (prio h best)))
wins_iff h best x = ground arith

pass-best_of :
    (f : ℕ) (h : Tasks) (stop best : ℕ) (xs : List ℕ)
    → Segment h stop xs
    → length xs < f
    → pass f h stop best (prio_or h best) (head_or stop xs)
      ≡ ok (best_of (fit h) (prio h) best xs, prio_or h (best_of (fit h) (prio h) best xs))
unfolding pass best_of
pass-best_of zero h stop best xs s fuel = absurd (omega arith)
pass-best_of (suc f) h stop best [] s fuel = ground arith
pass-best_of (suc f) h stop best (x ∷ xs) s fuel =
    let own : prio_or h x ≡ (h x).priority = ground arith in
    rw (==-false_of_ne x 0 s.0, ==-false_of_ne x stop s.1, s.2, wins_iff h best x)
      (elim (Bool-cases (fit h x && ((best == null) || ltb (prio h x) (prio h best)))) [
        | inl wins ↦ rw wins (rw own at (pass-best_of f h stop x xs s.3 (omega arith)))
        | inr loses ↦ rw loses (pass-best_of f h stop best xs s.3 (omega arith))
      ])

best_of-append :
    (ok? : ℕ → Bool) (pr : ℕ → ℕ) (best : ℕ) (xs ys : List ℕ)
    → best_of ok? pr best (xs ++ ys) ≡ best_of ok? pr (best_of ok? pr best xs) ys
unfolding best_of
best_of-append ok? pr best [] ys = refl
best_of-append ok? pr best (x ∷ xs) ys = best_of-append ok? pr (better ok? pr best x) xs ys

-- The order in which `find_next` looks at the tasks: from the one behind `current` round to it.
abbrev pub rotation : List ℕ → ℕ → List ℕ → List ℕ
rotation pre current post = post ++ (pre ++ (current ∷ []))

-- The list of all tasks, split at the current one.
pub record IsList (k : Kernel) (pre post : List ℕ) : Type 0 where
  pub chain : Chain k.tasks (pre ++ (k.current ∷ post))
  pub head : k.all_tasks ≡ first (pre ++ (k.current ∷ post))

abbrev winner : Kernel → List ℕ → List ℕ → ℕ
winner k pre post = best_of (fit k.tasks) (prio k.tasks) 0 (rotation pre k.current post)

pass_none :
    (f : ℕ) (h : Tasks) (stop best best_prio t : ℕ)
    → 0 < f
    → t ≡ stop
    → pass f h stop best best_prio t ≡ ok (best, best_prio)
unfolding pass
pass_none zero h stop best best_prio t fuel e = absurd (omega arith)
pass_none (suc f) h stop best best_prio t fuel e = ground arith

module _ (f : ℕ) (k : Kernel) (pre : List ℕ) where
  -- A pass over the whole list, and one over the part in front of the starting point.
  pass_whole :
      (xs : List ℕ) (t : Ptr)
      → Chain k.tasks xs
      → t ≡ first xs
      → length xs < f
      → pass f k.tasks null null 255 t
        ≡ ok (
          best_of (fit k.tasks) (prio k.tasks) 0 xs,
          prio_or k.tasks (best_of (fit k.tasks) (prio k.tasks) 0 xs),
        )
  pass_whole xs t c e fuel =
      ap (pass f k.tasks null null 255) (e ∙ head_or-first xs)
      ∙ pass-best_of f k.tasks null 0 xs (Chain-Segment_all k.tasks xs c) fuel

  pass_front :
      (best : ℕ) (xs zs : List ℕ) (t : Ptr)
      → Chain k.tasks (xs ++ zs)
      → t ≡ first (xs ++ zs)
      → length xs < f
      → pass f k.tasks (first zs) best (prio_or k.tasks best) t
        ≡ ok (
          best_of (fit k.tasks) (prio k.tasks) best xs,
          prio_or k.tasks (best_of (fit k.tasks) (prio k.tasks) best xs),
        )
  pass_front best xs zs t c e fuel =
      ap (pass f k.tasks (first zs) best (prio_or k.tasks best)) (e ∙ first-append xs zs)
      ∙ pass-best_of f k.tasks (first zs) best xs (Chain-Segment k.tasks xs zs c) fuel

  start_last : IsList k pre [] → start k ≡ k.all_tasks
  unfolding start
  start_last is =
      let m = Chain-middle k.tasks pre k.current [] is.chain in
      rw (==-false_of_ne k.current 0 m.0, m.3)

  start_inner : (y : ℕ) (post : List ℕ) → IsList k pre (y ∷ post) → start k ≡ y
  unfolding start
  start_inner y post is =
      let m = Chain-middle k.tasks pre k.current (y ∷ post) is.chain in
      rw (==-false_of_ne k.current 0 m.0, m.3, ==-false_of_ne y 0 m.4.0)

  current-ne-null : (post : List ℕ) → IsList k pre post → (k.current == null) ≡ false
  current-ne-null post is =
      ==-false_of_ne k.current 0 (Chain-middle k.tasks pre k.current post is.chain).0

  find_next_last :
      IsList k pre []
      → length (pre ++ (k.current ∷ [])) < f
      → find_next f k ≡ (if winner k pre [] == null then panic else ok (winner k pre []))
  unfolding find_next
  find_next_last is fuel = rw (
    pass_whole (pre ++ (k.current ∷ [])) (start k) is.chain (start_last is ∙ is.head) fuel,
    current-ne-null [] is,
    pass_none f k.tasks (start k) (winner k pre []) (prio_or k.tasks (winner k pre [])) k.all_tasks
        (omega arith) (sym (start_last is)),
  )

  find_next_inner :
      (y : ℕ) (post : List ℕ)
      → IsList k pre (y ∷ post)
      → length (pre ++ (k.current ∷ y ∷ post)) < f
      → find_next f k
        ≡ (if winner k pre (y ∷ post) == null then panic else ok (winner k pre (y ∷ post)))
  unfolding find_next
  find_next_inner y post is fuel =
      let m = Chain-middle k.tasks pre k.current (y ∷ post) is.chain in
      let regroup : (pre ++ (k.current ∷ [])) ++ (y ∷ post) ≡ pre ++ (k.current ∷ y ∷ post) =
        append_assoc pre (k.current ∷ []) (y ∷ post) in
      let first_best = best_of (fit k.tasks) (prio k.tasks) 0 (y ∷ post) in
      rw (
        pass_whole (y ∷ post) (start k) m.4 (start_inner y post is)
            (omega (arith, length-append pre (k.current ∷ y ∷ post))),
        current-ne-null (y ∷ post) is,
        ap (λ t. pass f k.tasks t first_best (prio_or k.tasks first_best) k.all_tasks)
              (start_inner y post is)
            ∙ pass_front first_best (pre ++ (k.current ∷ [])) (y ∷ post) k.all_tasks
                (subst (Chain k.tasks) (sym regroup) is.chain) (is.head ∙ ap first (sym regroup))
                (omega (
                  arith,
                  length-append pre (k.current ∷ y ∷ post),
                  length-append pre (k.current ∷ []),
                )),
        sym (best_of-append (fit k.tasks) (prio k.tasks) 0 (y ∷ post) (pre ++ (k.current ∷ []))),
      )

Nonnull-rotation :
    (pre : List ℕ) (c : ℕ) (post : List ℕ)
    → Nonnull (pre ++ (c ∷ post))
    → Nonnull (rotation pre c post)
Nonnull-rotation pre c post nn =
    let (front, nn_c, back) = parts pre nn in
    Nonnull-append post (pre ++ (c ∷ [])) back (Nonnull-append pre (c ∷ []) front (nn_c, tt))
  where
    parts : (xs : List ℕ) → Nonnull (xs ++ (c ∷ post)) → Nonnull xs × (c ≢ 0) × Nonnull post
    parts [] n = (tt, n.0, n.1)
    parts (x ∷ xs) n = let (a, b, d) = parts xs n.1 in ((n.0, a), b, d)

pub has-rotation :
    (i : ℕ) (pre : List ℕ) (c : ℕ) (post : List ℕ)
    → has i (rotation pre c post) ≡ has i (pre ++ (c ∷ post))
has-rotation i pre c post = ground (
  arith,
  has-append i post (pre ++ (c ∷ [])),
  has-append i pre (c ∷ []),
  has-append i pre (c ∷ post),
)

module _ (f : ℕ) (k : Kernel) (pre post : List ℕ) (is : IsList k pre post)
    (fuel : length (pre ++ (k.current ∷ post)) < f) where
  find_next_cases :
      find_next f k ≡ (if winner k pre post == null then panic else ok (winner k pre post))
  find_next_cases = go post is fuel
    where
      go :
          (zs : List ℕ)
          → IsList k pre zs
          → length (pre ++ (k.current ∷ zs)) < f
          → find_next f k ≡ (if winner k pre zs == null then panic else ok (winner k pre zs))
      go [] is' fuel' = find_next_last f k pre is' fuel'
      go (y ∷ ys) is' fuel' = find_next_inner f k pre y ys is' fuel'

  rotation-Nonnull : Nonnull (rotation pre k.current post)
  rotation-Nonnull = Nonnull-rotation pre k.current post (Chain-Nonnull k.tasks _ is.chain)

  -- With a task in the list of all tasks that can run, `find_next` neither panics nor faults, and
  -- returns the round-robin winner: the first of the eligible tasks with the least priority number,
  -- in the rotation that starts behind the current task.
  pub find_next-Picks :
      (i : ℕ)
      → i ∈ (pre ++ (k.current ∷ post))
      → eligible (k.tasks i).state ≡ true
      → (b : ℕ) × (find_next f k ≡ ok b)
        × Picks (fit k.tasks) (prio k.tasks) (rotation pre k.current post) b
  find_next-Picks i mem can =
      elim (best_of_zero (fit k.tasks) (prio k.tasks) (rotation pre k.current post)
        rotation-Nonnull) [
          | inl (_, none_fit) ↦
              let no_fit : fit k.tasks i ≡ false =
                NoneFit-mem (fit k.tasks) (prio k.tasks) i (rotation pre k.current post) none_fit
                  (has-rotation i pre k.current post ∙ mem) in
              cc
          | inr p ↦
              let nn =
                Nonnull-mem (winner k pre post) (rotation pre k.current post) rotation-Nonnull
                  (Picks-mem (fit k.tasks) (prio k.tasks) (rotation pre k.current post) _ p) in
              (winner k pre post, find_next_cases ∙ rw (==-false_of_ne (winner k pre post) 0 nn), p)
        ]

  -- With no task that can run, `find_next` panics.
  pub find_next-panic :
      NoneFit (fit k.tasks) (prio k.tasks) (rotation pre k.current post) → find_next f k ≡ panic
  find_next-panic none_fit =
      elim (best_of_zero (fit k.tasks) (prio k.tasks) (rotation pre k.current post)
        rotation-Nonnull) [
          | inl (zero_best, _) ↦ find_next_cases ∙ rw zero_best
          | inr p ↦
              let no_fit : fit k.tasks (winner k pre post) ≡ false =
                NoneFit-mem (fit k.tasks) (prio k.tasks) _ (rotation pre k.current post) none_fit
                  (Picks-mem (fit k.tasks) (prio k.tasks) (rotation pre k.current post) _ p) in
              absurd (ground (arith, p.fits))
        ]
