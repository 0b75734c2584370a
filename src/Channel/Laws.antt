-- ===== src/Channel/Laws.antt =====
-- A channel is a queue: values come out in the order in which they went in, and a hand-off keeps it.
use kangaroos.Base.{
  ℕ, ◌<◌, ◌≡◌, ◌≢◌, refl, ap, ◌∙◌, true, false, List, [], ◌∷◌, ◌++◌, length, ◌∈◌, some, ◌==◌, ltb,
  arith, ==-false_of_ne,
}
use kangaroos.Run.{ok}
use kangaroos.Pick.{Picks-mem}
use kangaroos.Tcb.{null}
use kangaroos.Kernel.{Kernel, trigger_pendsv_if}
use kangaroos.WaitList.{wait_list_pop_highest}
use kangaroos.WaitList.Links.{first, Links}
use kangaroos.WaitList.Pop.{prio, any_task}
use kangaroos.Sync.Handover.{HandsOver, wakes}
use kangaroos.Slots.{Slots, store}
use kangaroos.Channel.{Channel, push, hand_off, admit, send_impl, recv_impl}
use kangaroos.Channel.Ring.{IsRing, push-IsRing, popped, pop-eq, popped-IsRing}

module _ {T : Type 0} (f n : ℕ) (c : Channel T) (s : Slots T) (k : Kernel) where
  -- Without receivers that wait, a send into a buffer with room puts the value behind the others.
  pub send_queues :
      (xs : List T) (v : T) (src : ℕ)
      → IsRing n c xs
      → length xs < n
      → c.recv_head ≡ null
      → (send_impl f n c s k v src ≡ ok (push n c v, store s src v, k))
        × IsRing n (push n c v) (xs ++ (v ∷ []))
  unfolding send_impl
  send_queues xs v src r room nobody = (
    let has_room : ltb c.count n ≡ true = ground (arith, r.size) in rw (nobody, has_room) refl,
    push-IsRing n c v xs r room,
  )

  -- Without senders that wait, a receive takes the oldest value, and no other.
  pub recv_takes :
      (x : T) (xs : List T) (slot : ℕ)
      → IsRing n c (x ∷ xs)
      → c.send_head ≡ null
      → (recv_impl f n c s k slot ≡ ok (some x, popped n c, k)) × IsRing n (popped n c) xs
  unfolding recv_impl admit popped
  recv_takes x xs slot r nobody = (
    let some_there : ltb 0 c.count ≡ true = ground (arith, r.size) in
        rw (some_there, pop-eq n c x xs r, nobody) refl,
    popped-IsRing n c x xs r,
  )

  -- With senders that wait, a receive takes the oldest value, and the value of the sender that
  -- `wait_list_pop_highest` picks goes behind the others: the queue is as long as before, and that
  -- sender is ready.
  pub recv_admits :
      (x : T) (xs : List T) (slot w : ℕ) (ws : List ℕ) (parked : ℕ → T)
      → IsRing n c (x ∷ xs)
      → c.send_head ≡ first (w ∷ ws)
      → Links k.tasks (w ∷ ws)
      → k.current ≢ null
      → length ws < f
      → ((a : ℕ) → a ∈ (w ∷ ws) → s (k.tasks a).wait_ptr ≡ some (parked a))
      → (b : ℕ) × (rest : List ℕ) × (c' : Channel T) × (g : Kernel) × (recv_impl f n c s k slot
          ≡ ok (some x, c', trigger_pendsv_if (ltb (prio k.tasks b) (prio k.tasks k.current)) g))
        × IsRing n c' (xs ++ (parked b ∷ []))
        × (c'.send_head ≡ first rest)
        × (c'.recv_head ≡ c.recv_head)
        × HandsOver k (w ∷ ws) b rest g
  unfolding recv_impl admit popped push
  recv_admits x xs slot w ws parked r head l running fuel full =
      let z = wakes f k w ws l running fuel in
      let some_there : ltb 0 c.count ≡ true = ground (arith, r.size) in
      let some_wait : (c.send_head == null) ≡ false =
        ap (λ p. p == null) head ∙ ==-false_of_ne w 0 l.0 in
      let c₁ = record (popped n c) { send_head = first z.rest } in
      let p = popped-IsRing n c x xs r in
      let r₁ : IsRing n c₁ xs = record {
        head_lt = p.head_lt;
        size = p.size;
        fits = p.fits;
        tail_at = p.tail_at;
        holds = p.holds;
      } in
      (
        z.task,
        z.rest,
        push n c₁ (parked z.task),
        z.kernel,
        rw
            (
              some_there,
              pop-eq n c x xs r,
              some_wait,
              ap (wait_list_pop_highest f k.tasks) head ∙ z.pops,
              z.loads,
              full z.task (Picks-mem any_task (prio k.tasks) (w ∷ ws) z.task z.hands.picked),
              z.unblocks,
            )
            refl,
        push-IsRing n c₁ (parked z.task) xs r₁ (omega (arith, r.fits)),
        refl,
        refl,
        z.hands,
      )

  -- With receivers that wait, the value goes into the stack slot of the receiver that
  -- `wait_list_pop_highest` picks, which is ready.
  pub hand_off_lem :
      (v : T) (w : ℕ) (ws : List ℕ)
      → c.recv_head ≡ first (w ∷ ws)
      → Links k.tasks (w ∷ ws)
      → k.current ≢ null
      → length ws < f
      → (b : ℕ) × (rest : List ℕ) × (g : Kernel) × (hand_off f c s k v
          ≡ ok (
            ltb (prio k.tasks b) (prio k.tasks k.current),
            record c { recv_head = first rest },
            store s (k.tasks b).wait_ptr v,
            g,
          ))
        × HandsOver k (w ∷ ws) b rest g
  unfolding hand_off
  hand_off_lem v w ws head l running fuel =
      let z = wakes f k w ws l running fuel in
      (
        z.task,
        z.rest,
        z.kernel,
        rw (ap (wait_list_pop_highest f k.tasks) head ∙ z.pops, z.loads, z.unblocks) refl,
        z.hands,
      )
