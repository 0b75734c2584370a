-- ===== src/WaitList/Pop.antt =====
-- `wait_list_pop_highest` removes the waiter with the least priority number, the latest of equals.
use kangaroos.Base.{
  ℕ, zero, suc, ◌<◌, ◌≡◌, ◌≢◌, refl, ap, subst, ◌∙◌, Bool, true, false, inl, inr, List, [], ◌∷◌,
  ◌++◌, arith, ◌==◌, if◌then◌else◌, ltb, ◌∈◌, ◌∉◌, has-append, length, length-append, Bool-cases,
  ==-false_of_ne, ==_self,
}
use kangaroos.Run.{ok, ◌>>=◌}
use kangaroos.Pick.{Picks, Nonnull, best_of, best_of-Picks}
use kangaroos.Tcb.{Ptr, null, Tasks, blocked, set_state, write, load, wait_next_of}
use kangaroos.WaitList.Links.{first, Links, Links-set_state}
use kangaroos.WaitList.{scan, unlink, wait_list_pop_highest}

abbrev pub prio : Tasks → ℕ → ℕ
prio h a = (h a).priority

-- Every waiter may be picked.
abbrev pub any_task : ℕ → Bool
any_task a = true

pub Links-Nonnull : (h : Tasks) (xs : List ℕ) → Links h xs → Nonnull xs
Links-Nonnull h [] l = tt
Links-Nonnull h (x ∷ xs) l = (l.0, Links-Nonnull h xs l.3)

scan-best_of :
    (f : ℕ) (h : Tasks) (best : ℕ) (xs : List ℕ)
    → best ≢ null
    → Links h xs
    → length xs < f
    → scan f h best (h best).priority (first xs) ≡ ok (best_of any_task (prio h) best xs)
unfolding scan best_of
scan-best_of zero h best xs nn l fuel = absurd (omega arith)
scan-best_of (suc f) h best [] nn l fuel = refl
scan-best_of (suc f) h best (x ∷ xs) nn l fuel =
    rw (==-false_of_ne x 0 l.0, l.2, ==-false_of_ne best 0 nn)
      (elim (Bool-cases (ltb (h x).priority (h best).priority)) [
        | inl wins ↦ rw wins (scan-best_of f h x xs l.0 l.3 (omega arith))
        | inr loses ↦ rw loses (scan-best_of f h best xs nn l.3 (omega arith))
      ])

-- The last of `x` and the tasks behind it.
abbrev pub last_of : ℕ → List ℕ → ℕ
last_of x [] = x
last_of x (y ∷ ys) = last_of y ys

pub mem-last_of : (x : ℕ) (ys : List ℕ) → last_of x ys ∈ (x ∷ ys)
mem-last_of x [] = ground arith
mem-last_of x (y ∷ ys) = ground (arith, mem-last_of y ys)

-- The unlinking loop, on a list that is split at the task to unlink.
module _ (b : ℕ) (after : List ℕ) where
  unlink_lem :
      (f : ℕ) (h : Tasks) (n : Ptr) (x : ℕ) (before : List ℕ)
      → Links h (x ∷ before ++ (b ∷ after))
      → length before < f
      → unlink f h b n x ≡ ok (set_state h (last_of x before) (blocked n))
  unfolding unlink load
  unlink_lem zero h n x before l fuel = absurd (omega arith)
  unlink_lem (suc f) h n x [] l fuel = rw (==-false_of_ne x 0 l.0, l.2, ==_self b)
  unlink_lem (suc f) h n x (y ∷ ys) l fuel =
      rw (==-false_of_ne x 0 l.0, l.2)
        (let apart : (y == b) ≡ false = ground (arith, has-append y ys (b ∷ after)) in
          rw apart (unlink_lem f h n y ys l.3 (omega arith)))

  pub unlink-Links :
      (h : Tasks) (x : ℕ) (before : List ℕ)
      → Links h (x ∷ before ++ (b ∷ after))
      → Links (set_state h (last_of x before) (blocked (first after))) (x ∷ before ++ after)
  unfolding set_state write
  unlink-Links h x [] l =
      (l.0, ground arith, ground arith, Links-set_state h x _ after (ground arith) l.3.3)
  unlink-Links h x (y ∷ ys) l = (
    l.0,
    ground (arith, has-append x ys (b ∷ after), has-append x ys after),
    ground (arith, has-append x ys (b ∷ after), mem-last_of y ys),
    unlink-Links h y ys l.3,
  )

-- What a pop leaves: `b` was picked from `xs`, the memory links the other waiters in their order,
-- and no field of a task has changed but the state of a task that still waits.
pub record Popped (h : Tasks) (xs : List ℕ) (b : ℕ) (rest : List ℕ) (g : Tasks) : Type 0 where
  pub picked : Picks any_task (prio h) xs b
  pub remaining : rest ≡ picked.before ++ picked.after
  pub links : Links g rest
  pub gone : b ∉ rest
  pub kept : (a : ℕ) → a ∉ rest → g a ≡ h a
  pub same : (a : ℕ) → g a ≡ record (h a) { state = (g a).state }

-- A pop that ends without a fault, with its result.
pub record Pops (f : ℕ) (h : Tasks) (xs : List ℕ) : Type 0 where
  pub task : ℕ
  pub rest : List ℕ
  pub memory : Tasks
  pub returns : wait_list_pop_highest f h (first xs) ≡ ok (task, first rest, memory)
  pub popped : Popped h xs task rest memory

-- The middle of a list of distinct tasks.
pub Links-middle :
    (h : Tasks) (before : List ℕ) (b : ℕ) (after : List ℕ)
    → Links h (before ++ (b ∷ after))
    → ((h b).state ≡ blocked (first after))
      × (b ≢ null)
      × (b ∉ before)
      × (b ∉ after)
      × Links h after
Links-middle h [] b after l = (l.2, l.0, refl, l.1, l.3)
Links-middle h (x ∷ before) b after l =
    let m = Links-middle h before b after l.3 in
    (m.0, m.1, ground (arith, has-append x before (b ∷ after)), m.3, m.4)

pop_first :
    (f : ℕ) (h : Tasks) (x : ℕ) (xs : List ℕ)
    → Links h (x ∷ xs)
    → length xs < f
    → wait_list_pop_highest f h x ≡ (do
      best_next ← wait_next_of (h (best_of any_task (prio h) x xs)).state
      if best_of any_task (prio h) x xs == x
          then ok (best_of any_task (prio h) x xs, best_next, h)
          else do
            h' ← unlink f h (best_of any_task (prio h) x xs) best_next x
            ok (best_of any_task (prio h) x xs, x, h'))
unfolding wait_list_pop_highest
pop_first f h x xs l fuel = rw (==-false_of_ne x 0 l.0, l.2, scan-best_of f h x xs l.0 l.3 fuel)

-- What the pop returns, for a pick `b` that stands between `before` and `after`.
module _ (f : ℕ) (h : Tasks) (x : ℕ) (xs : List ℕ) (b : ℕ) (after : List ℕ) where
  pop_head :
      best_of any_task (prio h) x xs ≡ b
      → b ≡ x
      → Links h (b ∷ after)
      → Links h (x ∷ xs)
      → length xs < f
      → wait_list_pop_highest f h x ≡ ok (b, first after, h)
  pop_head e is m l fuel =
      pop_first f h x xs l fuel ∙ rw (e, m.2) (let same : (b == x) ≡ true = ground arith in rw same)

  pop_behind :
      (ys : List ℕ)
      → best_of any_task (prio h) x xs ≡ b
      → b ≢ x
      → Links h (x ∷ ys ++ (b ∷ after))
      → Links h (x ∷ xs)
      → length xs < f
      → length ys < f
      → wait_list_pop_highest f h x ≡ ok (b, x, set_state h (last_of x ys) (blocked (first after)))
  pop_behind ys e apart m l fuel fuel' =
      pop_first f h x xs l fuel
      ∙ rw (
        e,
        (Links-middle h (x ∷ ys) b after m).0,
        ==-false_of_ne b x apart,
        unlink_lem b after f h (first after) x ys m fuel',
      )

  Popped-head :
      (p : Picks any_task (prio h) (x ∷ xs) b)
      → p.before ≡ []
      → p.after ≡ after
      → Links h (b ∷ after)
      → Popped h (x ∷ xs) b after h
  Popped-head p e e' m = record {
    picked = p;
    remaining = rw (e, e');
    links = m.3;
    gone = m.1;
    kept = λ a out. refl;
    same = λ a. refl;
  }

  Popped-behind :
      (ys : List ℕ) (p : Picks any_task (prio h) (x ∷ xs) b)
      → p.before ≡ x ∷ ys
      → p.after ≡ after
      → Links h (x ∷ ys ++ (b ∷ after))
      → Popped h (x ∷ xs) b (x ∷ ys ++ after) (set_state h (last_of x ys) (blocked (first after)))
  unfolding set_state write
  Popped-behind ys p e e' m =
      let mid = Links-middle h (x ∷ ys) b after m in
      record {
        picked = p;
        remaining = rw (e, e');
        links = unlink-Links b after h x ys m;
        gone = ground (arith, has-append b ys after, mid.2, mid.3);
        kept = λ a out. ground (arith, has-append a ys after, mem-last_of x ys);
        same = λ a. ground arith;
      }

  pop_at :
      (before : List ℕ) (p : Picks any_task (prio h) (x ∷ xs) b)
      → best_of any_task (prio h) x xs ≡ b
      → p.before ≡ before
      → p.after ≡ after
      → Links h (before ++ (b ∷ after))
      → Links h (x ∷ xs)
      → x ∷ xs ≡ before ++ (b ∷ after)
      → length xs < f
      → Pops f h (x ∷ xs)
  pop_at [] p e is is' m l split fuel = record {
    task = b;
    rest = after;
    memory = h;
    returns = pop_head e (ground arith) m l fuel;
    popped = Popped-head p is is' m;
  }
  pop_at (y ∷ ys) p e is is' m l split fuel =
      let head_is : y ≡ x = ground arith in
      let m' : Links h (x ∷ ys ++ (b ∷ after)) =
        subst (λ t. Links h (t ∷ ys ++ (b ∷ after))) head_is m in
      let apart : b ≢ x = ground (arith, (Links-middle h (x ∷ ys) b after m').2) in
      let short : length ys < f = omega (arith, ap length split, length-append ys (b ∷ after)) in
      record {
        task = b;
        rest = x ∷ ys ++ after;
        memory = set_state h (last_of x ys) (blocked (first after));
        returns = pop_behind ys e apart m' l fuel short;
        popped = Popped-behind ys p (ground arith) is' m';
      }

-- On a list of waiters the pop ends without a fault, returns a pick, and leaves the other waiters.
pub pop-Popped :
    (f : ℕ) (h : Tasks) (x : ℕ) (xs : List ℕ) → Links h (x ∷ xs) → length xs < f → Pops f h (x ∷ xs)
pop-Popped f h x xs l fuel =
    let p = best_of-Picks any_task (prio h) x xs refl (Links-Nonnull h (x ∷ xs) l) in
    pop_at f h x xs _ p.after p.before p refl refl refl (subst (Links h) p.split l) l p.split fuel

-- On the empty list the pop returns null and changes nothing.
pub pop-null : (f : ℕ) (h : Tasks) → wait_list_pop_highest f h null ≡ ok (null, null, h)
unfolding wait_list_pop_highest
pop-null f h = refl
