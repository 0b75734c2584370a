-- ===== src/Sync/EventGroup/Scan.antt =====
-- The scans of `set`, for any list of tasks that wait. Both are one loop over a test, the flags that a task
-- takes, and what it finds in its control block.
pub mod Relink
pub mod Wake
pub mod Loop
use kangaroos.Base.{
  ℕ, zero, suc, ◌%◌, ◌^◌, ◌<◌, ◌≡◌, ◌≢◌, refl, sym, ap, ap₂, subst, ◌∙◌, Bool, true, false, ◌||◌,
  List, [], ◌∷◌, ◌++◌, append_assoc, arith, ◌==◌, if◌then◌else◌, ◌∈◌, ◌∉◌, false≢true, fun_ext, has,
  has-append, length, Bool-cases, inl, inr, ==-false_of_ne, eq_of_==, ne_of_==, ltb, Option, none,
  some,
}
use kangaroos.Run.{Run, ok, out_of_fuel, ◌>>=◌}
use kangaroos.Tcb.{
  Ptr, null, Tcb, Tasks, ready, blocked, write, write_self, write_ne, set_state, set_wait_ptr,
  wait_next_of,
}
use kangaroos.Kernel.{Kernel}
use kangaroos.WaitList.Links.{first, Links, Links-frame, Links-blocked}
use kangaroos.Pick.{Nonnull-mem}
use kangaroos.WaitList.Pop.{prio, Links-Nonnull, last_of, mem-last_of, Links-middle, unlink-Links}
use kangaroos.Scheduler.{unblock}
use kangaroos.Sync.Handover.{unblock-eq}
use kangaroos.Sync.EventGroup.{and_not, task_mask, cut, Scan}
use kangaroos.Sync.EventGroup.Scan.Relink.{
  last_or_null, last_or_null-snoc, relink, cut_lem, relink-Links, relink-same, relink_ne, or_assoc,
  some_injective, some≢none, in_tail, notin_cons,
}

abbrev pub scan_ok : ℕ → List ℕ → Bool → Kernel → Run Scan
scan_ok bits waiters preempt g = ok (bits, first waiters, preempt, g)

module _ (hit : ℕ → ℕ → Bool) (takes : ℕ → ℕ → ℕ) (told : ℕ → ℕ → ℕ) where
  -- The flags that are left, the tasks that still wait, and what a task takes, for waiters with masks `m`.
  abbrev pub left : (ℕ → ℕ) → ℕ → List ℕ → ℕ
  left m bits [] = bits
  left m bits (x ∷ xs) =
      if hit bits (m x) then left m (and_not bits (takes bits (m x))) xs else left m bits xs

  abbrev pub rest : (ℕ → ℕ) → ℕ → List ℕ → List ℕ
  rest m bits [] = []
  rest m bits (x ∷ xs) =
      if hit bits (m x) then rest m (and_not bits (takes bits (m x))) xs else x ∷ rest m bits xs

  abbrev pub taken : (ℕ → ℕ) → ℕ → List ℕ → ℕ → Option ℕ
  taken m bits [] a = none
  taken m bits (x ∷ xs) a =
      if hit bits (m x)
      then (if a == x
          then some (takes bits (m x))
          else taken m (and_not bits (takes bits (m x))) xs a)
      else taken m bits xs a

  -- Some woken task has a priority above `p`.
  abbrev pub urgent : (ℕ → ℕ) → (ℕ → ℕ) → ℕ → ℕ → List ℕ → Bool
  urgent m pr p bits [] = false
  urgent m pr p bits (x ∷ xs) =
      if hit bits (m x)
      then ltb (pr x) p || urgent m pr p (and_not bits (takes bits (m x))) xs
      else urgent m pr p bits xs

  abbrev pub noted : Tasks → Ptr → ℕ → Tasks
  noted h x v = set_wait_ptr h x (told (h x).wait_ptr v)

  unfoldable pub loop : ℕ → (bits : ℕ) → (head prev cur : Ptr) → Bool → Kernel → Run Scan
  loop zero bits head prev cur preempt k = out_of_fuel
  loop (suc f) bits head prev cur preempt k =
      if cur == null then ok (bits, head, preempt, k) else do
        next ← wait_next_of (k.tasks cur).state
        let mask = task_mask k.tasks cur
        let (head', h) = cut k.tasks head prev next
        if hit bits mask
            then (do
              (need, k') ← unblock (record k { tasks = noted h cur (takes bits mask) }) cur
              loop f (and_not bits (takes bits mask)) head' prev next (preempt || need) k')
            else loop f bits head cur next preempt k

  -- The task after it was woken with the flags `v`.
  abbrev pub awake : Tcb → ℕ → Tcb
  awake t v = record t { state = ready t.time_slice; wait_ptr = told t.wait_ptr v }

  -- What a scan of `xs` behind the tasks `ps`, which stay, leaves.
  pub record Scanned (k : Kernel) (m : ℕ → ℕ) (bits : ℕ) (ps xs : List ℕ) (g : Kernel)
      : Type 0 where
    pub links : Links g.tasks (ps ++ rest m bits xs)
    pub woken : (a v : ℕ) → taken m bits xs a ≡ some v → g.tasks a ≡ awake (k.tasks a) v
    pub waits :
        (a : ℕ)
        → taken m bits xs a ≡ none
        → g.tasks a ≡ record (k.tasks a) { state = (g.tasks a).state }
    pub others : (a : ℕ) → a ∉ ps → a ∉ xs → g.tasks a ≡ k.tasks a
    pub current : g.current ≡ k.current
    pub tick : g.tick ≡ k.tick
    pub all_tasks : g.all_tasks ≡ k.all_tasks
    pub pendsv : g.pendsv ≡ k.pendsv

  pub mem-rest : (m : ℕ → ℕ) (bits : ℕ) (xs : List ℕ) (a : ℕ) → a ∈ rest m bits xs → a ∈ xs
  mem-rest m bits [] a i = i
  mem-rest m bits (x ∷ xs) a i = elim (Bool-cases (hit bits (m x))) [
    | inl e ↦ ground (arith, mem-rest m (and_not bits (takes bits (m x))) xs a (rw e at i))
    | inr e ↦ elim (Bool-cases (a == x)) [
      | inl q ↦ rw q refl
      | inr n ↦ rw n (mem-rest m bits xs a (in_tail a x (rest m bits xs) n (rw e at i)))
    ]
  ]

  pub taken-mem :
      (m : ℕ → ℕ) (bits : ℕ) (xs : List ℕ) (a v : ℕ) → taken m bits xs a ≡ some v → a ∈ xs
  taken-mem m bits [] a v t = absurd (some≢none v (sym t))
  taken-mem m bits (x ∷ xs) a v t = elim (Bool-cases (a == x)) [
    | inl q ↦ rw q refl
    | inr n ↦ elim (Bool-cases (hit bits (m x))) [
      | inl e ↦ rw n (taken-mem m (and_not bits (takes bits (m x))) xs a v (rw (e, n) at t))
      | inr e ↦ rw n (taken-mem m bits xs a v (rw e at t))
    ]
  ]

  -- A task that takes nothing still waits.
  pub taken-rest :
      (m : ℕ → ℕ) (bits : ℕ) (xs : List ℕ) (a : ℕ)
      → a ∈ xs
      → taken m bits xs a ≡ none
      → a ∈ rest m bits xs
  taken-rest m bits [] a i t = i
  taken-rest m bits (x ∷ xs) a i t = elim (Bool-cases (a == x)) [
    | inl q ↦ elim (Bool-cases (hit bits (m x))) [
      | inl e ↦ absurd (some≢none (takes bits (m x)) (rw (e, q) at t))
      | inr e ↦ rw (e, q) refl
    ]
    | inr n ↦ elim (Bool-cases (hit bits (m x))) [
      | inl e ↦ rw e (
          taken-rest m (and_not bits (takes bits (m x))) xs a (in_tail a x xs n i) (rw (e, n) at t))
      | inr e ↦ rw (e, n) (taken-rest m bits xs a (in_tail a x xs n i) (rw e at t))
    ]
  ]

  -- A scan changes no priority.
  pub Scanned-prio :
      (k : Kernel) (m : ℕ → ℕ) (bits : ℕ) (ps xs : List ℕ) (g : Kernel)
      → Scanned k m bits ps xs g
      → prio g.tasks ≡ prio k.tasks
  Scanned-prio k m bits ps xs g s = fun_ext λ a. by_taken a (taken m bits xs a) refl
    where
      by_taken : (a : ℕ) (o : Option ℕ) → taken m bits xs a ≡ o → prio g.tasks a ≡ prio k.tasks a
      by_taken a none t = ap (λ c. c.priority) (s.waits a t)
      by_taken a (some v) t = ap (λ c. c.priority) (s.woken a v t)
