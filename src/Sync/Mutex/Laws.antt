-- ===== src/Sync/Mutex/Laws.antt =====
-- Mutual exclusion, hand-over and priority inheritance of the mutex.
use kangaroos.Base.{
  ℕ, min, ◌≤◌, ◌<◌, ◌≡◌, ◌≢◌, refl, ap, ◌∙◌, ◌⊎◌, inl, inr, true, false, List, [], ◌∷◌, arith, ltb,
  has, ◌∈◌, ◌∉◌, length, ◌==◌, ==-false_of_ne, Bool-cases,
}
use kangaroos.Run.{ok}
use kangaroos.Pick.{AtLeast, AtLeast-weaken, AtLeast-mem}
use kangaroos.Tcb.{
  null, Tasks, blocked, load, set_state, set_priority, set_priority-state, set_priority_self,
  set_priority_ne,
}
use kangaroos.Kernel.{Kernel, trigger_pendsv, trigger_pendsv_if}
use kangaroos.WaitList.{wait_list_pop_highest, block_and_push}
use kangaroos.WaitList.Links.{first, Links, Links-frame}
use kangaroos.WaitList.Pop.{prio, any_task}
use kangaroos.WaitList.Push.{push-eq, push-Links}
use kangaroos.Sync.Handover.{HandsOver, HandsOver-AtLeast, wakes}
use kangaroos.Sync.Mutex.{Mutex, lock, unlock_internal, inherit}

-- The waiters `xs` are well linked, wait only for a lock that is held, the owner is none of them, and
-- its priority is at least as high as that of every waiter.
pub record IsMutex {T : Type 0} (m : Mutex T) (k : Kernel) (xs : List ℕ) : Type 0 where
  pub head : m.wait_head ≡ first xs
  pub links : Links k.tasks xs
  pub held : (xs ≡ []) ⊎ (m.owner ≢ null)
  pub apart : m.owner ∉ xs
  pub inherits : AtLeast any_task (prio k.tasks) (prio k.tasks m.owner) xs

inherit-state : (h : Tasks) (o p c a : ℕ) → (inherit h o p c a).state ≡ (h a).state
unfolding inherit
inherit-state h o p c a = elim (Bool-cases (ltb c p)) [
  | inl e ↦ rw e (set_priority-state h o c a)
  | inr e ↦ rw e
]

inherit_ne : (h : Tasks) (o p c a : ℕ) → a ≢ o → inherit h o p c a ≡ h a
unfolding inherit
inherit_ne h o p c a ne = elim (Bool-cases (ltb c p)) [
  | inl e ↦ rw e (set_priority_ne h o c a ne)
  | inr e ↦ rw e
]

inherit_self : (h : Tasks) (o c : ℕ) → prio (inherit h o (h o).priority c) o ≡ min (h o).priority c
unfolding inherit
inherit_self h o c = elim (Bool-cases (ltb c (h o).priority)) [
  | inl e ↦ rw e (ap (λ t. t.priority) (set_priority_self h o c) ∙ ground arith)
  | inr e ↦ rw e (ground arith)
]

module _ {T : Type 0} (m : Mutex T) (k : Kernel) where
  -- The memory in which the owner has the current task's priority, if that is higher.
  boosted : Tasks
  boosted = inherit k.tasks m.owner (k.tasks m.owner).priority (k.tasks k.current).priority

  -- Then the current task is blocked in front of `xs`.
  pub parked : List ℕ → Tasks
  parked xs = set_state boosted k.current (blocked (first xs))

  -- The memory in which the owner has its own priority.
  pub restored : Tasks
  restored = set_priority k.tasks m.owner (k.tasks m.owner).base_priority

  pub restored_kernel : Kernel
  unfolding restored
  restored_kernel = record k { tasks = restored }

  pub restored-state : (a : ℕ) → (restored_kernel.tasks a).state ≡ (k.tasks a).state
  unfolding restored_kernel restored
  restored-state a = set_priority-state k.tasks m.owner _ a

  -- A free lock is taken at once, with no other change.
  pub lock_free :
      IsMutex m k []
      → m.owner ≡ null
      → (lock m k ≡ ok (record m { owner = k.current }, k))
        × IsMutex (record m { owner = k.current }) k []
  unfolding lock
  lock_free is free =
      (rw free, record { head = is.head; links = tt; held = inl refl; apart = refl; inherits = tt })

  module _ (xs : List ℕ) (is : IsMutex m k xs) (taken : m.owner ≢ null) (running : k.current ≢ null)
      (out : k.current ∉ xs) (other : k.current ≢ m.owner) where
    boosted-Links : Links boosted xs
    unfolding boosted
    boosted-Links =
        Links-frame k.tasks boosted xs
          (λ a i.
            inherit-state k.tasks m.owner (k.tasks m.owner).priority (k.tasks k.current).priority a)
          is.links

    lock_eq :
        lock m k
        ≡ ok (record m { wait_head = k.current }, trigger_pendsv (record k { tasks = parked xs }))
    unfolding lock load parked boosted
    lock_eq = rw (
      ==-false_of_ne m.owner 0 taken,
      ==-false_of_ne k.current 0 running,
      ap (λ p. block_and_push boosted p k.current) is.head ∙ push-eq boosted k.current xs running,
    )

    parked-prio : (a : ℕ) → prio (parked xs) a ≡ prio boosted a
    unfolding parked set_state
    parked-prio a = ground arith

    boosted-prio_owner : prio boosted m.owner ≡ min (prio k.tasks m.owner) (prio k.tasks k.current)
    unfolding boosted
    boosted-prio_owner = inherit_self k.tasks m.owner (k.tasks k.current).priority

    boosted-prio_ne : (a : ℕ) → a ≢ m.owner → prio boosted a ≡ prio k.tasks a
    unfolding boosted
    boosted-prio_ne a ne = ap (λ t. t.priority) (inherit_ne k.tasks m.owner _ _ a ne)

    parked-AtLeast : AtLeast any_task (prio (parked xs)) (prio (parked xs) m.owner) xs
    parked-AtLeast =
        AtLeast-weaken any_task (prio k.tasks) (prio (parked xs)) (prio k.tasks m.owner)
          (prio (parked xs) m.owner) xs (omega (arith, parked-prio m.owner, boosted-prio_owner))
          (λ a i.
            parked-prio a ∙ boosted-prio_ne a (λ e. ground (arith, ap (λ b. has b xs) e, is.apart)))
          is.inherits

    -- A lock that is held blocks the caller in front of the waiters. The owner gets the caller's
    -- priority if that is higher, so that no waiter has a higher priority than the owner; no other
    -- task's priority changes.
    pub lock_blocks :
        (lock m k
          ≡ ok
              (record m { wait_head = k.current }, trigger_pendsv (record k { tasks = parked xs })))
        × (prio (parked xs) m.owner ≡ min (prio k.tasks m.owner) (prio k.tasks k.current))
        × ((a : ℕ) → a ≢ m.owner → prio (parked xs) a ≡ prio k.tasks a)
        × ((parked xs k.current).state ≡ blocked (first xs))
        × IsMutex
            (record m { wait_head = k.current })
            (record k { tasks = parked xs })
            (k.current ∷ xs)
    lock_blocks = (
      lock_eq,
      parked-prio m.owner ∙ boosted-prio_owner,
      λ a ne. parked-prio a ∙ boosted-prio_ne a ne,
      parked_links.2,
      record {
        head = refl;
        links = parked_links;
        held = inr taken;
        apart = ground (arith, is.apart);
        inherits = (
          λ _. omega (
            arith,
            parked-prio m.owner,
            boosted-prio_owner,
            parked-prio k.current,
            boosted-prio_ne k.current other,
          ),
          parked-AtLeast,
        );
      },
    )
      where
        parked_links : Links (parked xs) (k.current ∷ xs)
        parked_links = unfold parked in push-Links boosted k.current xs running out boosted-Links

  module _ (taken : m.owner ≢ null) where
    -- Without waiters the lock is free, and the old owner has its own priority.
    pub unlock_frees :
        (f : ℕ)
        → IsMutex m k []
        → (unlock_internal f m k ≡ ok (record m { owner = null }, restored_kernel))
          × IsMutex (record m { owner = null }) restored_kernel []
    unfolding unlock_internal load restored restored_kernel
    unlock_frees f is =
        let nobody : (m.wait_head == null) ≡ true = ap (λ p. p == null) is.head in
        (
          rw (==-false_of_ne m.owner 0 taken, nobody),
          record { head = is.head; links = tt; held = inl refl; apart = refl; inherits = tt },
        )

    restored-Links : (xs : List ℕ) → Links k.tasks xs → Links restored xs
    unfolding restored
    restored-Links xs l =
        Links-frame k.tasks restored xs (λ a i. set_priority-state k.tasks m.owner _ a) l

    -- With waiters the lock goes to the one that `wait_list_pop_highest` picks, which is ready. No
    -- waiter that is left has a higher priority than the new owner.
    pub unlock_grants :
        (f : ℕ) (x : ℕ) (xs : List ℕ)
        → IsMutex m k (x ∷ xs)
        → k.current ≢ null
        → length xs < f
        → (b : ℕ) × (rest : List ℕ) × (g : Kernel) × (unlock_internal f m k
            ≡ ok (
              record m { owner = b; wait_head = first rest },
              trigger_pendsv_if (ltb (prio restored b) (prio restored k.current)) g,
            ))
          × HandsOver restored_kernel (x ∷ xs) b rest g
          × IsMutex (record m { owner = b; wait_head = first rest }) g rest
    unfolding unlock_internal load restored_kernel restored
    unlock_grants f x xs is running fuel =
        let w = wakes f restored_kernel x xs (restored-Links (x ∷ xs) is.links) running fuel in
        let pops = ap (wait_list_pop_highest f restored) is.head ∙ w.pops in
        let waiting : (m.wait_head == null) ≡ false =
          ap (λ p. p == null) is.head ∙ ==-false_of_ne x 0 is.links.0 in
        (
          w.task,
          w.rest,
          w.kernel,
          rw (==-false_of_ne m.owner 0 taken, waiting, pops, w.unblocks),
          w.hands,
          record {
            head = refl;
            links = w.hands.links;
            held = inr w.hands.nonnull;
            apart = w.hands.gone;
            inherits = HandsOver-AtLeast restored_kernel w.kernel (x ∷ xs) w.task w.rest w.hands;
          },
        )

-- A task that holds two locks loses the priority of a waiter of one when it releases the other: with
-- a waiter of the second lock above the owner's own priority, the first lock's release ends without
-- a fault and breaks the inheritance of the second.
pub unlock_nested :
    {T S : Type 0} (f : ℕ) (m : Mutex T) (n : Mutex S) (k : Kernel) (ws : List ℕ) (w : ℕ)
    → IsMutex m k []
    → m.owner ≢ null
    → n.owner ≡ m.owner
    → w ∈ ws
    → w ≢ m.owner
    → prio k.tasks w < (k.tasks m.owner).base_priority
    → (unlock_internal f m k ≡ ok (record m { owner = null }, restored_kernel m k))
      × ¬ IsMutex n (restored_kernel m k) ws
unfolding restored_kernel restored
unlock_nested f m n k ws w is taken same mem ne above = (
  (unlock_frees m k taken f is).0,
  λ v.
      let own : prio (restored m k) m.owner ≡ (k.tasks m.owner).base_priority =
        ap (λ t. t.priority) (set_priority_self k.tasks m.owner _) in
      let at_w : prio (restored m k) w ≡ prio k.tasks w =
        ap (λ t. t.priority) (set_priority_ne k.tasks m.owner _ w ne) in
      let owner_le : prio (restored m k) n.owner ≤ prio (restored m k) w =
        AtLeast-mem any_task (prio (restored m k)) _ w ws v.inherits mem refl in
      let same_prio : prio (restored m k) n.owner ≡ prio (restored m k) m.owner =
        ap (prio (restored m k)) same in
      omega arith,
)
