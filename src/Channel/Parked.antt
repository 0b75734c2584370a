-- ===== src/Channel/Parked.antt =====
-- The channel of kangaroos/src/channel/mod.rs: its ring, whoever waits, and which of its lists has tasks.
use kangaroos.Base.{
  ℕ, true, refl, subst, ◌++◌, ◌∉◌, ◌≡◌, ◌≤◌, inl, inr, sym, ap, ◌∙◌, List, [], ◌∷◌, length, arith,
}
use kangaroos.Tcb.{Ptr}
use kangaroos.Kernel.{Kernel}
use kangaroos.Slots.{Slots}
use kangaroos.Channel.{Channel}
use kangaroos.Channel.Ring.{IsRing}
use kangaroos.Channel.View.{View, IsChannel, Blocks}
use kangaroos.Slots.Waiting.{
  cons-ne-nil, waiting_tasks, waiting_tasks_self, waiting_tasks_ne, Picks-of,
}
use kangaroos.Sync.Handover.{HandsOver}
use kangaroos.WaitList.Links.{Links}

-- The same ring, whoever waits.
pub IsRing-heads :
    {T : Type 0} (n : ℕ) (c : Channel T) (p q : Ptr) (xs : List T)
    → IsRing n c xs
    → IsRing n (record c { send_head = p; recv_head = q }) xs
IsRing-heads n c p q xs r = record {
  head_lt = r.head_lt;
  size = r.size;
  fits = r.fits;
  tail_at = r.tail_at;
  holds = r.holds;
}

module _ {T : Type 0} (n : ℕ) (c : Channel T) (s : Slots T) (k : Kernel) (v : View T)
    (is : IsChannel n c s k.tasks v) where
  -- Not both lists have tasks.
  pub receivers-alone :
      1 ≤ n → (w : ℕ) (ws : List ℕ) → v.receivers ≡ w ∷ ws → (v.queue ≡ []) × (v.senders ≡ [])
  receivers-alone room w ws e =
      let nothing : v.queue ≡ [] = elim is.empty [
        | inl q ↦ absurd (cons-ne-nil w ws (sym e ∙ q))
        | inr q ↦ q
      ] in
      (
        nothing,
        elim is.full [
          | inl q ↦ q
          | inr q ↦ absurd (omega (arith, room, sym (ap length nothing) ∙ q))
        ],
      )

  pub no_receivers : (x : T) (xs : List T) → v.queue ≡ x ∷ xs → v.receivers ≡ []
  no_receivers x xs e = elim is.empty [ inl q ↦ q | inr q ↦ absurd (cons-ne-nil x xs (sym e ∙ q)) ]

-- A task that starts to wait.
pub waiting-Blocks :
    (k : Kernel) (src : ℕ) (ws : List ℕ)
    → Blocks k ws src (record k { tasks = waiting_tasks k.tasks k.current src ws; pendsv = true })
waiting-Blocks k src ws = record {
  self = waiting_tasks_self k.tasks k.current src ws;
  others = waiting_tasks_ne k.tasks k.current src ws;
  current = refl;
  tick = refl;
  all_tasks = refl;
  requests = refl;
}

-- The hand-over of a list as the view has it.
pub HandsOver-of :
    (k g : Kernel) (xs ys : List ℕ) (b : ℕ) (rest : List ℕ) (e : xs ≡ ys)
    (o : HandsOver k ys b rest g)
    → HandsOver k xs b
        ((Picks-of k.tasks xs ys b e o.picked).before
          ++ (Picks-of k.tasks xs ys b e o.picked).after)
        g
unfolding Picks-of
HandsOver-of k g xs ys b rest e o = record {
  picked = Picks-of k.tasks xs ys b e o.picked;
  remaining = refl;
  links = subst (Links g.tasks) o.remaining o.links;
  nonnull = o.nonnull;
  gone = subst (λ l. b ∉ l) o.remaining o.gone;
  awake = o.awake;
  kept = λ a out ne. o.kept a (subst (λ l. a ∉ l) (sym o.remaining) out) ne;
  same = o.same;
  current = o.current;
  tick = o.tick;
  all_tasks = o.all_tasks;
  pendsv = o.pendsv;
}
