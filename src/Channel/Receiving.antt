-- ===== src/Channel/Receiving.antt =====
-- `recv_impl` of kangaroos/src/channel/mod.rs implements the steps of `recv` on the view of a channel.
use kangaroos.Base.{
  ℕ, ◌≡◌, ◌≢◌, ◌≤◌, ◌<◌, inl, inr, refl, sym, ap, subst, ◌∙◌, true, false, false≢true, Option, none,
  some, List, [], ◌∷◌, ◌++◌, length, ◌==◌, ltb, ==-false_of_ne, if◌then◌else◌, arith, ◌∈◌, ◌∉◌,
}
use kangaroos.Run.{ok}
use kangaroos.Tcb.{null, load, set_wait_ptr}
use kangaroos.Kernel.{Kernel, trigger_pendsv_if}
use kangaroos.WaitList.{block_and_push}
use kangaroos.WaitList.Links.{first, Links}
use kangaroos.WaitList.Pop.{prio}
use kangaroos.Slots.{Slots}
use kangaroos.Channel.{Channel, recv_impl}
use kangaroos.Channel.Ring.{IsRing, popped}
use kangaroos.Channel.Laws.{recv_takes, recv_admits}
use kangaroos.Channel.View.{View, IsChannel, RecvStep, takes, admits, waits}
use kangaroos.Slots.Waiting.{
  trigger-tasks, cons-ne-nil, nil-or-cons, enough, same_length, waiting_tasks, waiting-pushes,
  waiting-Links, waiting-places, in_rest, Picks-of,
}
use kangaroos.Channel.Parked.{IsRing-heads, no_receivers, waiting-Blocks, HandsOver-of}

module _ {T : Type 0} (f n : ℕ) (c : Channel T) (s : Slots T) (k : Kernel) (v : View T)
    (is : IsChannel n c s k.tasks v) (room : 1 ≤ n) (running : k.current ≢ null) where
  Receives : (slot : ℕ) → Type 0
  Receives slot =
      (o : Option T) × (c' : Channel T) × (g : Kernel) × (v' : View T) × (recv_impl f n c s k slot
        ≡ ok (o, c', g))
      × IsChannel n c' s g.tasks v'
      × RecvStep k slot v g o v'

  Receives-taken :
      (x : T) (xs : List T) (slot : ℕ) → v.queue ≡ x ∷ xs → v.senders ≡ [] → Receives slot
  unfolding Receives popped
  Receives-taken x xs slot e alone =
      let nobody = no_receivers n c s k v is x xs e in
      let (returns, ring) =
        recv_takes f n c s k x xs slot (subst (IsRing n c) e is.ring)
          (is.send_head ∙ ap first alone) in
      (
        some x,
        popped n c,
        k,
        record v { queue = xs },
        returns,
        record {
          ring = ring;
          send_head = is.send_head;
          recv_head = is.recv_head;
          send_links = is.send_links;
          recv_links = is.recv_links;
          full = inl alone;
          empty = inl nobody;
          values = is.values;
          places = is.places;
        },
        takes x xs e alone refl,
      )

  Receives-waiting : (slot : ℕ) → v.queue ≡ [] → k.current ∉ v.receivers → Receives slot
  unfolding Receives recv_impl load
  Receives-waiting slot nothing out =
      let me = k.current in
      let h = waiting_tasks k.tasks me slot v.receivers in
      let none_there : ltb 0 c.count ≡ false = ground (arith, is.ring.size, ap length nothing) in
      let alone : v.senders ≡ [] = elim is.full [
        | inl q ↦ q
        | inr q ↦ absurd (omega (arith, room, sym (ap length nothing) ∙ q))
      ] in
      let pushes =
        ap (λ p. block_and_push (set_wait_ptr k.tasks me slot) p me) is.recv_head
        ∙ waiting-pushes k.tasks me slot v.receivers running in
      (
        none,
        record c { recv_head = me },
        record k { tasks = h; pendsv = true },
        record v { receivers = me ∷ v.receivers; slot = λ a. if a == me then slot else v.slot a },
        rw (none_there, ==-false_of_ne me 0 running, pushes) refl,
        record {
          ring = IsRing-heads n c c.send_head me v.queue is.ring;
          send_head = is.send_head;
          recv_head = refl;
          send_links = subst (Links h) (sym alone) tt;
          recv_links = waiting-Links k.tasks me slot v.receivers running out is.recv_links;
          full = inl alone;
          empty = inr nothing;
          values = λ a i. absurd (false≢true (subst (λ l. a ∈ l) alone i));
          places = waiting-places k.tasks me slot v.receivers v.slot v.receivers is.places;
        },
        waits nothing alone (waiting-Blocks k slot v.receivers),
      )

  Receives-admitting :
      (x : T) (xs : List T) (slot w : ℕ) (ws : List ℕ)
      → v.queue ≡ x ∷ xs
      → v.senders ≡ w ∷ ws
      → length ws < f
      → Receives slot
  unfolding Receives Picks-of
  Receives-admitting x xs slot w ws e senders fuel =
      let nobody = no_receivers n c s k v is x xs e in
      let whole : length v.queue ≡ n = elim is.full [
        | inl q ↦ absurd (cons-ne-nil w ws (sym senders ∙ q))
        | inr q ↦ q
      ] in
      let (b, rest, c', g, returns, ring, head, other, hands) =
        recv_admits f n c s k x xs slot w ws v.parked (subst (IsRing n c) e is.ring)
          (is.send_head ∙ ap first senders) (subst (Links k.tasks) senders is.send_links) running
          fuel (λ a i. is.values a (subst (λ l. a ∈ l) (sym senders) i)) in
      let p = Picks-of k.tasks v.senders (w ∷ ws) b senders hands.picked in
      let v' = record v { queue = xs ++ (v.parked b ∷ []); senders = p.before ++ p.after } in
      let preempt = ltb (prio k.tasks b) (prio k.tasks k.current) in
      let after : IsChannel n c' s g.tasks v' = record {
        ring = ring;
        send_head = head ∙ ap first hands.remaining;
        recv_head = other ∙ is.recv_head;
        send_links = subst (Links g.tasks) hands.remaining hands.links;
        recv_links = subst (Links g.tasks) (sym nobody) tt;
        full = inr (same_length x (v.parked b) xs n (sym (ap length e) ∙ whole));
        empty = inl nobody;
        values = λ a i.
            ap s (ap (λ t. t.wait_ptr) (hands.same a))
            ∙ is.values a (in_rest a b p.before p.after v.senders p.split i);
        places = λ a i. absurd (false≢true (subst (λ l. a ∈ l) nobody i));
      } in
      (
        some x,
        c',
        trigger_pendsv_if preempt g,
        v',
        returns,
        subst (λ h. IsChannel n c' s h v') (sym (trigger-tasks preempt g)) after,
        admits x xs b p e (g, HandsOver-of k g v.senders (w ∷ ws) b rest senders hands, refl),
      )

  -- `recv` of a channel with room for a value ends without a fault, whoever waits. It takes the oldest value,
  -- and the first sender of the least priority number is ready, with its value behind the queue; at an empty
  -- queue it waits for a value in its slot. The channel stands for the view after that step. It triggers PendSV
  -- if it waits, or if the woken sender has a higher priority than the current task, and only then; no other
  -- task changes, but for links.
  pub recv_refines :
      (slot : ℕ)
      → length v.senders ≤ f
      → k.current ∉ v.receivers
      → (o : Option T) × (c' : Channel T) × (g : Kernel) × (v' : View T) × (recv_impl f n c s k slot
          ≡ ok (o, c', g))
        × IsChannel n c' s g.tasks v'
        × RecvStep k slot v g o v'
  unfolding Receives
  recv_refines slot fuel out = elim (nil-or-cons v.queue) [
    | inl nothing ↦ Receives-waiting slot nothing out
    | inr (x, xs, e) ↦ elim (nil-or-cons v.senders) [
      | inl alone ↦ Receives-taken x xs slot e alone
      | inr (w, ws, d) ↦ Receives-admitting x xs slot w ws e d (enough w ws v.senders f d fuel)
    ]
  ]
