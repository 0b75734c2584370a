-- ===== src/Pool/Allocating.antt =====
-- `alloc_blocking` of kangaroos/src/mem/mod.rs implements its step on the view of a pool.
use kangaroos.Base.{
  ℕ, ◌≡◌, ◌≢◌, refl, sym, ap, subst, ◌∙◌, true, false≢true, List, [], ◌∷◌, inl, inr, ◌==◌,
  ==-false_of_ne, if◌then◌else◌, ◌∈◌, ◌∉◌,
}
use kangaroos.Run.{ok}
use kangaroos.Tcb.{null, load, set_wait_ptr, set_wait_ptr_self}
use kangaroos.Kernel.{Kernel}
use kangaroos.WaitList.{block_and_push}
use kangaroos.WaitList.Links.{Links}
use kangaroos.Slots.{Slots, store}
use kangaroos.Slots.Waiting.{
  cons-ne-nil, nil-or-cons, waiting_tasks, waiting-pushes, waiting-Links, waiting-values,
}
use kangaroos.Pool.{Pool, no_slot, alloc_blocking}
use kangaroos.Pool.Laws.{IsPool, first_slot, claim_takes}
use kangaroos.Pool.View.{View, IsShared, AllocStep, takes, waits}

module _ {T : Type 0} (n : ℕ) (p : Pool T) (stack : Slots T) (k : Kernel) (v : View T)
    (is : IsShared n p stack k.tasks v) (running : k.current ≢ null) (val : T) (src : ℕ) where
  Allocs : Type 0
  Allocs =
      (p' : Pool T) × (s' : Slots T) × (g : Kernel) × (v' : View T) × (alloc_blocking n p stack k
          val src
        ≡ ok (p', s', g))
      × IsShared n p' s' g.tasks v'
      × AllocStep k.current val p' g.tasks v v'

  allocs-taken : (x : ℕ) (xs : List ℕ) → v.free ≡ x ∷ xs → Allocs
  unfolding Allocs alloc_blocking load
  allocs-taken x xs e =
      let (p', claims, some_free, pool, holds, _, same) =
        claim_takes n p val x xs (subst (IsPool n p) e is.pool) in
      let nobody : v.waiters ≡ [] = elim is.none_free [
        | inl q ↦ q
        | inr q ↦ absurd (cons-ne-nil x xs (sym e ∙ q))
      ] in
      let h = set_wait_ptr k.tasks k.current x in
      (
        p',
        store stack src val,
        record k { tasks = h },
        record v { free = xs },
        rw (some_free, claims, ==-false_of_ne k.current 0 running) refl,
        record {
          pool = pool;
          wait_head = same ∙ is.wait_head;
          links = subst (Links h) (sym nobody) tt;
          none_free = inl nobody;
          values = λ a i. absurd (false≢true (subst (λ l. a ∈ l) nobody i));
        },
        takes x xs e holds (ap (λ t. t.wait_ptr) (set_wait_ptr_self k.tasks k.current x)),
      )

  allocs-waiting :
      v.free ≡ []
      → k.current ∉ v.waiters
      → ((a : ℕ) → a ∈ v.waiters → (k.tasks a).wait_ptr ≢ src)
      → Allocs
  unfolding Allocs alloc_blocking load
  allocs-waiting full out apart =
      let me = k.current in
      let h = waiting_tasks k.tasks me src v.waiters in
      let none_left : (p.free_head == no_slot) ≡ true =
        ap (λ s. s == no_slot) (is.pool.head ∙ ap first_slot full) in
      let pushes =
        ap (λ q. block_and_push (set_wait_ptr k.tasks me src) q me) is.wait_head
        ∙ waiting-pushes k.tasks me src v.waiters running in
      (
        record p { wait_head = me },
        store stack src val,
        record k { tasks = h; pendsv = true },
        record v { waiters = me ∷ v.waiters; parked = λ a. if a == me then val else v.parked a },
        rw (none_left, ==-false_of_ne me 0 running, pushes) refl,
        record {
          pool = record {
            small = is.pool.small;
            head = is.pool.head;
            frees = is.pool.frees;
            live = is.pool.live;
          };
          wait_head = refl;
          links = waiting-Links k.tasks me src v.waiters running out is.links;
          none_free = inr full;
          values =
              waiting-values k.tasks me src v.waiters stack val v.parked v.waiters is.values apart;
        },
        waits full,
      )

  -- `alloc_blocking` ends without a fault. It takes the first free slot, which then holds the value, and tells the
  -- task its index; without free slots the task waits with the value. The pool stands for the view after
  -- that step.
  pub alloc_refines :
      k.current ∉ v.waiters
      → ((a : ℕ) → a ∈ v.waiters → (k.tasks a).wait_ptr ≢ src)
      → (p' : Pool T) × (s' : Slots T) × (g : Kernel) × (v' : View T) × (alloc_blocking n p stack k
            val src
          ≡ ok (p', s', g))
        × IsShared n p' s' g.tasks v'
        × AllocStep k.current val p' g.tasks v v'
  unfolding Allocs
  alloc_refines out apart = elim (nil-or-cons v.free) [
    | inl full ↦ allocs-waiting full out apart
    | inr (x, xs, e) ↦ allocs-taken x xs e
  ]
