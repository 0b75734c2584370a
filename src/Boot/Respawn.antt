-- ===== src/Boot/Respawn.antt =====
-- A task that is spawned again: `spawn_into` of kangaroos/src/task.rs puts its control block at the head of a
-- list that has it already.
use kangaroos.Base.{
  ℕ, zero, suc, ◌≡◌, ◌≢◌, ◌≤◌, ◌⊎◌, inl, inr, refl, sym, ap, subst, ◌∙◌, List, [], ◌∷◌, ◌==◌,
  ==-false_of_ne, eq_of_==, Bool-cases, arith, ◌∈◌, before_of, after_of, split_at,
}
use kangaroos.Run.{ok, out_of_fuel}
use kangaroos.Tcb.{null, Tasks}
use kangaroos.Kernel.{Kernel}
use kangaroos.WaitList.Links.{first}
use kangaroos.Scheduler.{first_task, svc_first_task_sp}
use kangaroos.Scheduler.Chain.{Chain, head_or, Segment, Chain-Segment, first-append}
use kangaroos.Boot.{SpawnToken, spawn}
use kangaroos.Boot.Tokens.{tcbs, Booted}
use kangaroos.Boot.Spawn.{with_task, tcb_of, spawn_memory, new_task, other_task}

-- The list comes back to `t` behind the tasks `ys`.
record IsCyclic (h : Tasks) (t : ℕ) (ys : List ℕ) : Type 0 where
  nonnull : t ≢ null
  back : (h t).all_next ≡ head_or t ys
  segment : Segment h t ys

module _ (h : Tasks) (t : ℕ) where
  head-member : (ys : List ℕ) → (head_or t ys ≡ t) ⊎ (head_or t ys ∈ ys)
  head-member [] = inl refl
  head-member (y ∷ ys) = inr (ground arith)

  later : (a y : ℕ) (ys : List ℕ) → a ∈ ys → a ∈ y ∷ ys
  later a y ys i = ground arith

  onward_in : (a y : ℕ) (ys : List ℕ) → (a ≡ t) ⊎ (a ∈ ys) → (a ≡ t) ⊎ (a ∈ y ∷ ys)
  onward_in a y ys (inl p) = inl p
  onward_in a y ys (inr i) = inr (later a y ys i)

  Segment-next :
      (a : ℕ) (ys : List ℕ)
      → Segment h t ys
      → a ∈ ys
      → (a ≢ null) × (((h a).all_next ≡ t) ⊎ ((h a).all_next ∈ ys))
  Segment-next a [] s i = cc
  Segment-next a (y ∷ ys) s i = elim (Bool-cases (a == y)) [
    | inl e ↦
        let p = eq_of_== a y e in
        (
          λ q. s.0 (sym p ∙ q),
          subst (λ n. (n ≡ t) ⊎ (n ∈ y ∷ ys)) (sym (ap (λ b. (h b).all_next) p ∙ s.2))
              (onward_in (head_or t ys) y ys (head-member ys)),
        )
    | inr n ↦
        let (nn, onward) = Segment-next a ys s.3 (ground (arith, i, n)) in
        (nn, onward_in _ y ys onward)
  ]

  IsCyclic-next :
      (a : ℕ) (ys : List ℕ)
      → IsCyclic h t ys
      → (a ≡ t) ⊎ (a ∈ ys)
      → (a ≢ null) × (((h a).all_next ≡ t) ⊎ ((h a).all_next ∈ ys))
  IsCyclic-next a ys c (inl p) = rw (p, c.back) (c.nonnull, head-member ys)
  IsCyclic-next a ys c (inr i) = Segment-next a ys c.segment i

  first_task-endless :
      (f best best_prio a : ℕ) (ys : List ℕ)
      → IsCyclic h t ys
      → (a ≡ t) ⊎ (a ∈ ys)
      → first_task f h best best_prio a ≡ out_of_fuel
  unfolding first_task
  first_task-endless zero best best_prio a ys c i = refl
  first_task-endless (suc f) best best_prio a ys c i =
      let (nn, onward) = IsCyclic-next a ys c i in
      rw (==-false_of_ne a 0 nn) (first_task-endless f _ _ (h a).all_next ys c onward)

Segment-frame :
    (h g : Tasks) (t : ℕ) (ys : List ℕ)
    → ((a : ℕ) → a ≢ t → g a ≡ h a)
    → Segment h t ys
    → Segment g t ys
Segment-frame h g t [] same s = tt
Segment-frame h g t (y ∷ ys) same s =
    (s.0, s.1, ap (λ u. u.all_next) (same y s.1) ∙ s.2, Segment-frame h g t ys same s.3)

-- A token whose task was spawned before is not refused, and then the list of all tasks has no end: the walk
-- that looks for the first task never returns.
pub respawn-endless :
    (exit_lr : ℕ) (t : SpawnToken) (ts : List SpawnToken) (m : ℕ → ℕ) (k : Kernel)
    → Booted exit_lr ts m k
    → t.tcb_ptr ≢ null
    → 21 ≤ t.stack_len
    → t.tcb_ptr ∈ tcbs ts
    → (m' : ℕ → ℕ) × (k' : Kernel) × (spawn exit_lr t (m, k) ≡ ok (m', k'))
      × ((f : ℕ) → svc_first_task_sp f k' ≡ out_of_fuel)
unfolding svc_first_task_sp with_task tcb_of
respawn-endless exit_lr t ts m k s nn room i =
    let (m', returns, _, _, _) = spawn_memory exit_lr m k t room nn in
    let g = with_task exit_lr m k t room nn in
    let ys = before_of t.tcb_ptr (tcbs ts) in
    let zs = after_of t.tcb_ptr (tcbs ts) in
    let split = split_at t.tcb_ptr (tcbs ts) i in
    let chain = subst (Chain k.tasks) split s.spawned.chain in
    let same = other_task exit_lr m k t room nn in
    let cyclic : IsCyclic g.tasks t.tcb_ptr ys = record {
      nonnull = nn;
      back =
          ap (λ u. u.all_next) (new_task exit_lr m k t room nn)
          ∙ s.spawned.head
          ∙ ap first split
          ∙ first-append ys (t.tcb_ptr ∷ zs);
      segment =
          Segment-frame k.tasks g.tasks t.tcb_ptr ys same
            (Chain-Segment k.tasks ys (t.tcb_ptr ∷ zs) chain);
    } in
    (
      m',
      g,
      returns,
      λ f. rw (first_task-endless g.tasks t.tcb_ptr f null 255 t.tcb_ptr ys cyclic (inl refl)) refl,
    )
