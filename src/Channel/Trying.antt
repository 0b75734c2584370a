-- ===== src/Channel/Trying.antt =====
-- `try_send_impl` and `try_recv_impl` of kangaroos/src/channel/mod.rs, which never block.
use kangaroos.Base.{
  ℕ, ◌≡◌, ◌≢◌, ◌≤◌, ◌<◌, ◌⊎◌, inl, inr, refl, ap, ◌∙◌, Bool, true, false, none, List, [], ◌∷◌, ◌++◌,
  length, ltb, arith,
}
use kangaroos.Run.{ok}
use kangaroos.Tcb.{null}
use kangaroos.Kernel.{Kernel, trigger_pendsv_if}
use kangaroos.WaitList.Links.{first}
use kangaroos.Slots.{Slots}
use kangaroos.Slots.Waiting.{nil-or-cons, le-cases, enough, cons-ne-nil}
use kangaroos.Channel.{Channel, push, try_send_impl, recv_impl, try_recv_impl}
use kangaroos.Channel.Ring.{IsRing, push-IsRing}
use kangaroos.Channel.View.{View, IsChannel, SendStep, queued}
use kangaroos.Channel.Sending.{handed_lem, some_receiver}

module _ {T : Type 0} (n : ℕ) (c : Channel T) (s : Slots T) (k : Kernel) (v : View T) where
  -- Sent as by `send`, or refused by a full buffer, with nothing changed.
  abbrev pub Tried :
      (val : T) (sent : Bool) (c' : Channel T) (s' : Slots T) (g : Kernel) (v' : View T) → Type 0
  Tried val sent c' s' g v' =
      ((sent ≡ true) × SendStep n k 0 val s' v g v' × (v'.senders ≡ v.senders))
      ⊎ ((sent ≡ false) × (v.receivers ≡ []) × (length v.queue ≡ n) × (c' ≡ c) × (s' ≡ s) × (g ≡ k))

module _ {T : Type 0} (f n : ℕ) (c : Channel T) (s : Slots T) (k : Kernel) (v : View T)
    (is : IsChannel n c s k.tasks v) (room : 1 ≤ n) (running : k.current ≢ null) where
  Tries : (val : T) → Type 0
  Tries val =
      (sent : Bool) × (c' : Channel T) × (s' : Slots T) × (g : Kernel) × (v' : View T)
      × (try_send_impl f n c s k val ≡ ok (sent, c', s', g))
      × IsChannel n c' s' g.tasks v'
      × Tried n c s k v val sent c' s' g v'

  Tries-handed : (val : T) (w : ℕ) (ws : List ℕ) → v.receivers ≡ w ∷ ws → length ws < f → Tries val
  unfolding Tries try_send_impl
  Tries-handed val w ws e fuel =
      let (preempt, c', s', g, v', returns, after, step, same) =
        handed_lem f n c s k v is room running val 0 s w ws e fuel in
      (
        true,
        c',
        s',
        trigger_pendsv_if preempt g,
        v',
        rw (some_receiver f n c s k v is room running w ws e, returns) refl,
        after,
        inl (refl, step, same),
      )

  Tries-queued : (val : T) → v.receivers ≡ [] → length v.queue < n → Tries val
  unfolding Tries try_send_impl push
  Tries-queued val nobody short =
      let has_room : ltb c.count n ≡ true = ground (arith, is.ring.size) in
      let alone : v.senders ≡ [] = elim is.full [
        | inl q ↦ q
        | inr q ↦ absurd (omega (arith, short, q))
      ] in
      (
        true,
        push n c val,
        s,
        k,
        record v { queue = v.queue ++ (val ∷ []) },
        rw (is.recv_head ∙ ap first nobody, has_room) refl,
        record {
          ring = push-IsRing n c val v.queue is.ring short;
          send_head = is.send_head;
          recv_head = is.recv_head;
          send_links = is.send_links;
          recv_links = is.recv_links;
          full = inl alone;
          empty = inl nobody;
          values = is.values;
          places = is.places;
        },
        inl (refl, queued nobody short refl, refl),
      )

  Tries-refused : (val : T) → v.receivers ≡ [] → length v.queue ≡ n → Tries val
  unfolding Tries try_send_impl
  Tries-refused val nobody whole =
      let full : ltb c.count n ≡ false = ground (arith, is.ring.size, whole) in
      (
        false,
        c,
        s,
        k,
        v,
        rw (is.recv_head ∙ ap first nobody, full) refl,
        is,
        inr (refl, nobody, whole, refl, refl, refl),
      )

  -- `try_send` of a channel with room for a value ends without a fault, whoever waits. It sends the value as `send`
  -- does and returns `true`, or it returns `false` and changes nothing, if the queue is full and no receiver
  -- waits.
  pub try_send_refines :
      (val : T)
      → length v.receivers ≤ f
      → (sent : Bool) × (c' : Channel T) × (s' : Slots T) × (g : Kernel) × (v' : View T)
        × (try_send_impl f n c s k val ≡ ok (sent, c', s', g))
        × IsChannel n c' s' g.tasks v'
        × Tried n c s k v val sent c' s' g v'
  unfolding Tries
  try_send_refines val fuel = elim (nil-or-cons v.receivers) [
    | inl nobody ↦ elim (le-cases (length v.queue) n is.ring.fits) [
      | inl short ↦ Tries-queued val nobody short
      | inr whole ↦ Tries-refused val nobody whole
    ]
    | inr (w, ws, e) ↦ Tries-handed val w ws e (enough w ws v.receivers f e fuel)
  ]

-- `try_recv` does what `recv` does, and at an empty queue it returns `none` and changes nothing.
pub try_recv-recv :
    {T : Type 0} (f n : ℕ) (c : Channel T) (s : Slots T) (k : Kernel) (slot : ℕ) (xs : List T)
    → IsRing n c xs
    → (xs ≢ [] → try_recv_impl f n c s k ≡ recv_impl f n c s k slot)
      × (xs ≡ [] → try_recv_impl f n c s k ≡ ok (none, c, k))
unfolding try_recv_impl recv_impl
try_recv-recv f n c s k slot [] r =
    let nothing : ltb 0 c.count ≡ false = ground (arith, r.size) in
    (λ ne. absurd (ne refl), λ e. rw nothing refl)
try_recv-recv f n c s k slot (x ∷ xs) r =
    let some_there : ltb 0 c.count ≡ true = ground (arith, r.size) in
    (λ ne. rw some_there refl, λ e. absurd (cons-ne-nil x xs e))
