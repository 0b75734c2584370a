-- ===== src/Channel/Tests.antt =====
-- A channel of capacity 2 with two values, and with tasks that wait.
use kangaroos.Base.{
  Bool, ℕ, ◌≡◌, refl, [], ◌∷◌, inl, inr, Option, none, some, ◌==◌, arith, if◌then◌else◌,
}
use kangaroos.Run.{ok}
use kangaroos.Tcb.{null}
use kangaroos.Kernel.{Kernel}
use kangaroos.Slots.{Slots}
use kangaroos.Channel.{try_send_impl, Channel, send_impl, recv_impl}
use kangaroos.Channel.Ring.{IsRing}
use kangaroos.Channel.View.{View, IsChannel, SendStep, RecvStep}
use kangaroos.Channel.Sending.{send_refines}
use kangaroos.Channel.Receiving.{recv_refines}
use kangaroos.Channel.Trying.{Tried, try_send_refines}
use kangaroos.Channel.Handles.{sender, receiver, send_all, recv_all, recv_all-send_all}
use kangaroos.Samples.{busy, waiting}

-- The queue 40, 50 from the index 1 round to 0, with the given tasks that wait to send.
abbrev full : ℕ → Channel ℕ
full senders = record {
  buf = λ i. if i == 1 then some 40 else some 50;
  head = 1;
  tail = 1;
  count = 2;
  send_head = senders;
  recv_head = null;
}

full-IsRing : (senders : ℕ) → IsRing 2 (full senders) (40 ∷ 50 ∷ [])
full-IsRing senders = record {
  head_lt = omega arith;
  size = refl;
  fits = omega arith;
  tail_at = refl;
  holds = (refl, (refl, tt));
}

abbrev empty : ℕ → Channel ℕ
empty receivers = record {
  buf = λ i. none;
  head = 1;
  tail = 1;
  count = 0;
  send_head = null;
  recv_head = receivers;
}

empty-IsRing : (receivers : ℕ) → IsRing 2 (empty receivers) []
empty-IsRing receivers = record {
  head_lt = omega arith;
  size = refl;
  fits = omega arith;
  tail_at = refl;
  holds = tt;
}

abbrev slots : Slots ℕ
slots i = some 60

abbrev to_receive : View ℕ
to_receive = record {
  queue = [];
  senders = [];
  receivers = 1 ∷ 2 ∷ [];
  parked = λ a. 0;
  slot = λ a. (waiting.tasks a).wait_ptr;
}

to_receive-IsChannel : IsChannel 2 (empty 1) slots waiting.tasks to_receive
to_receive-IsChannel = record {
  ring = empty-IsRing 1;
  send_head = refl;
  recv_head = refl;
  send_links = tt;
  recv_links = ground arith;
  full = inl refl;
  empty = inr refl;
  values = λ a i. cc;
  places = λ a i. refl;
}

send_refines_example :
    (c : Channel ℕ) × (s : Slots ℕ) × (g : Kernel) × (v : View ℕ) × (send_impl 2 2
        (empty 1)
        slots
        waiting
        7
        100
      ≡ ok (c, s, g))
    × IsChannel 2 c s g.tasks v
    × SendStep 2 waiting 100 7 s to_receive g v
send_refines_example =
    send_refines 2 2 (empty 1) slots waiting to_receive to_receive-IsChannel (omega arith)
      (λ e. omega (arith, e)) 7 100 (omega arith) refl (λ a i. cc)

abbrev to_send : View ℕ
to_send = record {
  queue = 40 ∷ 50 ∷ [];
  senders = 1 ∷ 2 ∷ [];
  receivers = [];
  parked = λ a. 60;
  slot = λ a. 0;
}

to_send-IsChannel : IsChannel 2 (full 1) slots waiting.tasks to_send
to_send-IsChannel = record {
  ring = full-IsRing 1;
  send_head = refl;
  recv_head = refl;
  send_links = ground arith;
  recv_links = tt;
  full = inr refl;
  empty = inl refl;
  values = λ a i. refl;
  places = λ a i. cc;
}

recv_refines_example :
    (o : Option ℕ) × (c : Channel ℕ) × (g : Kernel) × (v : View ℕ) × (recv_impl 2 2
        (full 1)
        slots
        waiting
        100
      ≡ ok (o, c, g))
    × IsChannel 2 c slots g.tasks v
    × RecvStep waiting 100 to_send g o v
recv_refines_example =
    recv_refines 2 2 (full 1) slots waiting to_send to_send-IsChannel (omega arith)
      (λ e. omega (arith, e)) 100 (omega arith) refl

recv_all-send_all_example :
    (c₁ c₂ : Channel ℕ) × (s : Slots ℕ) × (send_all
        (sender 0 2)
        (7 ∷ 8 ∷ [])
        100
        (empty null, slots, busy)
      ≡ ok (c₁, s, busy))
    × (recv_all (receiver 0 2) 2 100 (c₁, s, busy) ≡ ok (some 7 ∷ some 8 ∷ [], (c₂, s, busy)))
    × IsRing 2 c₂ []
recv_all-send_all_example =
    recv_all-send_all 0 0 2 100 busy (7 ∷ 8 ∷ []) (empty null) slots (empty-IsRing null) refl refl
      (omega arith)

try_send_refines_example :
    (sent : Bool) × (c : Channel ℕ) × (s : Slots ℕ) × (g : Kernel) × (v : View ℕ) × (try_send_impl 2
        2
        (empty 1)
        slots
        waiting
        7
      ≡ ok (sent, c, s, g))
    × IsChannel 2 c s g.tasks v
    × Tried 2 (empty 1) slots waiting to_receive 7 sent c s g v
try_send_refines_example =
    try_send_refines 2 2 (empty 1) slots waiting to_receive to_receive-IsChannel (omega arith)
      (λ e. omega (arith, e)) 7 (omega arith)
