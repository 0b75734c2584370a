-- ===== src/Channel/Sending.antt =====
-- `send_impl` of kangaroos/src/channel/mod.rs implements the steps of `send` on the view of a channel.
use kangaroos.Base.{
  Bool, ℕ, ◌≡◌, ◌≢◌, ◌≤◌, ◌<◌, inl, inr, refl, sym, ap, subst, ◌∙◌, true, false, false≢true, List,
  [], ◌∷◌, ◌++◌, length, ◌==◌, ltb, ==-false_of_ne, if◌then◌else◌, arith, ◌∈◌, ◌∉◌,
}
use kangaroos.Run.{ok}
use kangaroos.Pick.{Picks-mem}
use kangaroos.Tcb.{null, load, set_wait_ptr}
use kangaroos.Kernel.{Kernel, trigger_pendsv_if}
use kangaroos.WaitList.{block_and_push}
use kangaroos.WaitList.Links.{first, Links}
use kangaroos.WaitList.Pop.{prio, any_task}
use kangaroos.Slots.{Slots, store}
use kangaroos.Channel.{Channel, push, hand_off, send_impl}
use kangaroos.Channel.Laws.{send_queues, hand_off_lem}
use kangaroos.Channel.View.{View, IsChannel, SendStep, handed, queued, parks}
use kangaroos.Slots.Waiting.{
  trigger-tasks, nil-or-cons, le-cases, enough, waiting_tasks, waiting-pushes, waiting-Links,
  waiting-values, in_rest, Picks-of, store_self,
}
use kangaroos.Channel.Parked.{IsRing-heads, receivers-alone, waiting-Blocks, HandsOver-of}

module _ {T : Type 0} (f n : ℕ) (c : Channel T) (s : Slots T) (k : Kernel) (v : View T)
    (is : IsChannel n c s k.tasks v) (room : 1 ≤ n) (running : k.current ≢ null) where
  Sends : (val : T) (src : ℕ) → Type 0
  Sends val src =
      (c' : Channel T) × (s' : Slots T) × (g : Kernel) × (v' : View T) × (send_impl f n c s k val
          src
        ≡ ok (c', s', g))
      × IsChannel n c' s' g.tasks v'
      × SendStep n k src val s' v g v'

  -- The hand-off, with any stack slots.
  pub handed_lem :
      (val : T) (src : ℕ) (s₀ : Slots T) (w : ℕ) (ws : List ℕ)
      → v.receivers ≡ w ∷ ws
      → length ws < f
      → (preempt : Bool) × (c' : Channel T) × (s' : Slots T) × (g : Kernel) × (v' : View T)
        × (hand_off f c s₀ k val ≡ ok (preempt, c', s', g))
        × IsChannel n c' s' (trigger_pendsv_if preempt g).tasks v'
        × SendStep n k src val s' v (trigger_pendsv_if preempt g) v'
        × (v'.senders ≡ v.senders)
  unfolding Picks-of
  handed_lem val src s₀ w ws e fuel =
      let (nothing, alone) = receivers-alone n c s k v is room w ws e in
      let (b, rest, g, returns, hands) =
        hand_off_lem f n c s₀ k val w ws (is.recv_head ∙ ap first e)
          (subst (Links k.tasks) e is.recv_links) running fuel in
      let p = Picks-of k.tasks v.receivers (w ∷ ws) b e hands.picked in
      let v' = record v { receivers = p.before ++ p.after } in
      let preempt = ltb (prio k.tasks b) (prio k.tasks k.current) in
      let s' = store s₀ (k.tasks b).wait_ptr val in
      let c' = record c { recv_head = first rest } in
      let after : IsChannel n c' s' g.tasks v' = record {
        ring = IsRing-heads n c c.send_head (first rest) v.queue is.ring;
        send_head = is.send_head;
        recv_head = ap first hands.remaining;
        send_links = subst (Links g.tasks) (sym alone) tt;
        recv_links = subst (Links g.tasks) hands.remaining hands.links;
        full = inl alone;
        empty = inr nothing;
        values = λ a i. absurd (false≢true (subst (λ l. a ∈ l) alone i));
        places = λ a i.
            ap (λ t. t.wait_ptr) (hands.same a)
            ∙ is.places a (in_rest a b p.before p.after v.receivers p.split i);
      } in
      (
        preempt,
        c',
        s',
        g,
        v',
        returns,
        subst (λ h. IsChannel n c' s' h v') (sym (trigger-tasks preempt g)) after,
        handed b p
            (ap s' (sym (is.places b (Picks-mem any_task (prio k.tasks) v.receivers b p)))
              ∙ store_self s₀ (k.tasks b).wait_ptr val)
            (g, HandsOver-of k g v.receivers (w ∷ ws) b rest e hands, refl),
        refl,
      )

  pub some_receiver : (w : ℕ) (ws : List ℕ) → v.receivers ≡ w ∷ ws → (c.recv_head == null) ≡ false
  some_receiver w ws e =
      ap (λ p. p == null) (is.recv_head ∙ ap first e)
      ∙ ==-false_of_ne w 0 (subst (Links k.tasks) e is.recv_links).0

  Sends-handed :
      (val : T) (src w : ℕ) (ws : List ℕ) → v.receivers ≡ w ∷ ws → length ws < f → Sends val src
  unfolding Sends send_impl
  Sends-handed val src w ws e fuel =
      let (preempt, c', s', g, v', returns, after, step, _) =
        handed_lem val src (store s src val) w ws e fuel in
      (
        c',
        s',
        trigger_pendsv_if preempt g,
        v',
        rw (some_receiver w ws e, returns) refl,
        after,
        step,
      )

  Sends-queued : (val : T) (src : ℕ) → v.receivers ≡ [] → length v.queue < n → Sends val src
  unfolding Sends push
  Sends-queued val src nobody short =
      let (returns, ring) =
        send_queues f n c s k v.queue val src is.ring short (is.recv_head ∙ ap first nobody) in
      let alone : v.senders ≡ [] = elim is.full [
        | inl q ↦ q
        | inr q ↦ absurd (omega (arith, short, q))
      ] in
      (
        push n c val,
        store s src val,
        k,
        record v { queue = v.queue ++ (val ∷ []) },
        returns,
        record {
          ring = ring;
          send_head = is.send_head;
          recv_head = is.recv_head;
          send_links = is.send_links;
          recv_links = is.recv_links;
          full = inl alone;
          empty = inl nobody;
          values = λ a i. absurd (false≢true (subst (λ l. a ∈ l) alone i));
          places = is.places;
        },
        queued nobody short refl,
      )

  Sends-parked :
      (val : T) (src : ℕ)
      → v.receivers ≡ []
      → length v.queue ≡ n
      → k.current ∉ v.senders
      → ((a : ℕ) → a ∈ v.senders → (k.tasks a).wait_ptr ≢ src)
      → Sends val src
  unfolding Sends send_impl load store
  Sends-parked val src nobody whole out apart =
      let me = k.current in
      let h = waiting_tasks k.tasks me src v.senders in
      let full : ltb c.count n ≡ false = ground (arith, is.ring.size, whole) in
      let pushes =
        ap (λ p. block_and_push (set_wait_ptr k.tasks me src) p me) is.send_head
        ∙ waiting-pushes k.tasks me src v.senders running in
      (
        record c { send_head = me },
        store s src val,
        record k { tasks = h; pendsv = true },
        record v { senders = me ∷ v.senders; parked = λ a. if a == me then val else v.parked a },
        rw (is.recv_head ∙ ap first nobody, full, ==-false_of_ne me 0 running, pushes) refl,
        record {
          ring = IsRing-heads n c me c.recv_head v.queue is.ring;
          send_head = refl;
          recv_head = is.recv_head;
          send_links = waiting-Links k.tasks me src v.senders running out is.send_links;
          recv_links = subst (Links h) (sym nobody) tt;
          full = inr whole;
          empty = inl nobody;
          values = waiting-values k.tasks me src v.senders s val v.parked v.senders is.values apart;
          places = λ a i. absurd (false≢true (subst (λ l. a ∈ l) nobody i));
        },
        parks nobody whole (waiting-Blocks k src v.senders),
      )

  -- `send` of a channel with room for a value ends without a fault, whoever waits. It hands the value to the
  -- first receiver of the least priority number, into the slot that this receiver named, and this receiver is
  -- ready; without receivers it puts the value behind the queue, or waits with it if the queue is full. The
  -- channel stands for the view after that step. It triggers PendSV if it waits, or if the woken receiver has a
  -- higher priority than the current task, and only then; no other task changes, but for links.
  pub send_refines :
      (val : T) (src : ℕ)
      → length v.receivers ≤ f
      → k.current ∉ v.senders
      → ((a : ℕ) → a ∈ v.senders → (k.tasks a).wait_ptr ≢ src)
      → (c' : Channel T) × (s' : Slots T) × (g : Kernel) × (v' : View T) × (send_impl f n c s k val
            src
          ≡ ok (c', s', g))
        × IsChannel n c' s' g.tasks v'
        × SendStep n k src val s' v g v'
  unfolding Sends
  send_refines val src fuel out apart = elim (nil-or-cons v.receivers) [
    | inl nobody ↦ elim (le-cases (length v.queue) n is.ring.fits) [
      | inl short ↦ Sends-queued val src nobody short
      | inr whole ↦ Sends-parked val src nobody whole out apart
    ]
    | inr (w, ws, e) ↦ Sends-handed val src w ws e (enough w ws v.receivers f e fuel)
  ]
