-- ===== src/Scheduler/Fair.antt =====
-- The round robin is fair: a switch away from a task goes to another one, if one of at least the same
-- priority can run.
use kangaroos.Base.{
  ℕ, ◌≤◌, ◌<◌, ◌≡◌, ◌≢◌, refl, sym, ap, subst, ◌∙◌, Bool, true, List, [], ◌∷◌, ◌++◌, append_assoc,
  arith, has, ◌∈◌, ◌∉◌, has-append, before_of, after_of, split_at, length,
}
use kangaroos.Run.{ok}
use kangaroos.Pick.{Picks, Picks-le, Above-mem}
use kangaroos.Kernel.{Kernel}
use kangaroos.WaitList.Pop.{prio}
use kangaroos.Scheduler.{eligible, pendsv_save_and_switch}
use kangaroos.Scheduler.Chain.{Chain, Chain-middle}
use kangaroos.Scheduler.FindNext.{fit}
use kangaroos.Scheduler.Invariant.{IsScheduled, rotation, has-rotation}
use kangaroos.Scheduler.Switch.{switch_lem}

nil-ne-append : (bs : List ℕ) (c : ℕ) (after : List ℕ) → [] ≢ bs ++ (c ∷ after)
nil-ne-append [] c after e = cc
nil-ne-append (x ∷ bs) c after e = cc

-- Where `c` stands at the end alone, it splits a list there.
end_split :
    (c : ℕ) (ys before after : List ℕ)
    → c ∉ ys
    → ys ++ (c ∷ []) ≡ before ++ (c ∷ after)
    → ys ≡ before
end_split c [] [] after out e = refl
end_split c [] (x ∷ bs) after out e = absurd (nil-ne-append bs c after (ground arith))
end_split c (y ∷ ys) [] after out e = absurd (ground arith)
end_split c (y ∷ ys) (x ∷ bs) after out e =
    ground (arith, end_split c ys bs after (ground arith) (ground arith))

-- If the last task of the scan is picked, every other fit task has a greater priority number.
Picks-last :
    (ok? : ℕ → Bool) (p : ℕ → ℕ) (c a : ℕ) (ys : List ℕ)
    → c ∉ ys
    → Picks ok? p (ys ++ (c ∷ [])) c
    → a ∈ ys
    → ok? a ≡ true
    → p c < p a
Picks-last ok? p c a ys out k m f =
    Above-mem ok? p (p c) a k.before k.earlier
      (sym (ap (has a) (end_split c ys k.before k.after out k.split)) ∙ m) f

module _ (k : Kernel) (xs : List ℕ) (s : IsScheduled k xs) where
  others : List ℕ
  others = after_of k.current xs ++ before_of k.current xs

  rotation-others : rotation k.current xs ≡ others ++ (k.current ∷ [])
  unfolding others
  rotation-others =
      sym (append_assoc (after_of k.current xs) (before_of k.current xs) (k.current ∷ []))

  current-not-mem-others : k.current ∉ others
  unfolding others
  current-not-mem-others =
      let m =
        Chain-middle k.tasks (before_of k.current xs) k.current (after_of k.current xs)
          (subst (Chain k.tasks) (split_at k.current xs s.known) s.chain) in
      ground (arith, has-append k.current (after_of k.current xs) (before_of k.current xs))

  mem-others : (a : ℕ) → a ∈ xs → a ≢ k.current → a ∈ others
  unfolding others
  mem-others a m ne = ground (
    arith,
    ap (has a) (split_at k.current xs s.known),
    has-append a (after_of k.current xs) (before_of k.current xs),
    has-append a (before_of k.current xs) (k.current ∷ after_of k.current xs),
  )

  picked-ne-current :
      (a b : ℕ)
      → a ∈ xs
      → a ≢ k.current
      → eligible (k.tasks a).state ≡ true
      → prio k.tasks a ≤ prio k.tasks k.current
      → Picks (fit k.tasks) (prio k.tasks) (rotation k.current xs) b
      → b ≢ k.current
  picked-ne-current a b m ne can le p e =
      let q : Picks (fit k.tasks) (prio k.tasks) (others ++ (k.current ∷ [])) k.current =
        subst (Picks (fit k.tasks) (prio k.tasks) (others ++ (k.current ∷ []))) e
          (subst (λ l. Picks (fit k.tasks) (prio k.tasks) l b) rotation-others p) in
      absurd (
        omega (
          arith,
          Picks-last (fit k.tasks) (prio k.tasks) k.current a others current-not-mem-others q
              (mem-others a m ne) can,
        ))

-- If another task can run and has at least the current task's priority, the switch leaves the current
-- task: no task keeps the CPU from its equals across a switch.
pub switch_rotates :
    (f sp : ℕ) (k : Kernel) (xs : List ℕ)
    → IsScheduled k xs
    → length xs < f
    → (a : ℕ) → a ∈ xs
    → a ≢ k.current
    → eligible (k.tasks a).state ≡ true
    → prio k.tasks a ≤ prio k.tasks k.current
    → (sp' : ℕ) × (g : Kernel) × (pendsv_save_and_switch f sp k ≡ ok (sp', g))
      × (g.current ≢ k.current)
      × (prio k.tasks g.current ≤ prio k.tasks a)
switch_rotates f sp k xs s fuel a m ne can le =
    let (b, g, returns, done, again) = switch_lem f sp k xs s fuel a m can in
    let apart = picked-ne-current k xs s a b m ne can le done.picked in
    (
      (g.tasks b).sp,
      g,
      returns,
      λ e. apart (sym done.current ∙ e),
      omega (
        arith,
        ap (prio k.tasks) done.current,
        Picks-le (fit k.tasks) (prio k.tasks) (rotation k.current xs) b a done.picked
            (has-rotation a k.current xs s.known ∙ m) can,
      ),
    )
