-- ===== src/Channel/Handles.antt =====
-- The handles of kangaroos/src/channel/mod.rs: the traits as records of functions, `Sender` and `Receiver`, and
-- what goes through them.
use kangaroos.Base.{
  ℕ, zero, suc, ◌+◌, ◌≡◌, ◌≤◌, ◌<◌, refl, sym, subst, Bool, Option, some, List, [], ◌∷◌, ◌++◌,
  append_assoc, append-nil, length, length-append, arith,
}
use kangaroos.Run.{Run, ok, ◌>>=◌}
use kangaroos.Tcb.{null}
use kangaroos.Kernel.{Kernel}
use kangaroos.Slots.{Slots, store}
use kangaroos.Channel.{Channel, push, send_impl, try_send_impl, recv_impl, try_recv_impl}
use kangaroos.Channel.Ring.{IsRing, popped}
use kangaroos.Channel.Laws.{send_queues, recv_takes}

-- The channel, the stack slots and the kernel.
abbrev pub State : Type 0 → Type 0
State T = Channel T × Slots T × Kernel

-- The traits. The value of `send_blocking` and the result of `recv_blocking` lie in a stack slot.
pub record SendChannel (T : Type 0) : Type 0 where
  pub send_blocking : (val : T) (src : ℕ) → State T → Run (State T)
  pub try_send_now : (val : T) → State T → Run (Bool × State T)

pub record RecvChannel (T : Type 0) : Type 0 where
  pub recv_blocking : (slot : ℕ) → State T → Run (Option T × State T)
  pub try_recv_now : State T → Run (Option T × State T)

pub record Sender (T : Type 0) : Type 0 where
  pub inner : SendChannel T

pub record Receiver (T : Type 0) : Type 0 where
  pub inner : RecvChannel T

module _ {T : Type 0} where
  -- The implementations of the traits for `Channel<T, n>`, whose walks have fuel `f`.
  abbrev pub send_channel : (f n : ℕ) → SendChannel T
  send_channel f n = record {
    send_blocking = λ val src (c, s, k). send_impl f n c s k val src;
    try_send_now = λ val (c, s, k). (do
      (sent, c', s', k') ← try_send_impl f n c s k val
      ok (sent, (c', s', k')));
  }

  abbrev pub recv_channel : (f n : ℕ) → RecvChannel T
  recv_channel f n = record {
    recv_blocking =
        λ slot (c, s, k). (do (o, c', k') ← recv_impl f n c s k slot; ok (o, (c', s, k')));
    try_recv_now = λ (c, s, k). (do (o, c', k') ← try_recv_impl f n c s k; ok (o, (c', s, k')));
  }

  -- `Channel::sender` and `Channel::receiver`.
  abbrev pub sender : (f n : ℕ) → Sender T
  sender f n = record { inner = send_channel f n }

  abbrev pub receiver : (f n : ℕ) → Receiver T
  receiver f n = record { inner = recv_channel f n }

  abbrev pub send : Sender T → (val : T) (src : ℕ) → State T → Run (State T)
  send tx val src st = tx.inner.send_blocking val src st

  abbrev pub try_send : Sender T → (val : T) → State T → Run (Bool × State T)
  try_send tx val st = tx.inner.try_send_now val st

  abbrev pub recv : Receiver T → (slot : ℕ) → State T → Run (Option T × State T)
  recv rx slot st = rx.inner.recv_blocking slot st

  abbrev pub try_recv : Receiver T → State T → Run (Option T × State T)
  try_recv rx st = rx.inner.try_recv_now st

  -- Sends in turn, all from one stack slot.
  pub send_all : Sender T → List T → (src : ℕ) → State T → Run (State T)
  send_all tx [] src st = ok st
  send_all tx (v ∷ vs) src st = do st' ← send tx v src st; send_all tx vs src st'

  -- So many receives in turn; one that waits leaves no value.
  pub recv_all : Receiver T → (count : ℕ) → (slot : ℕ) → State T → Run (List (Option T) × State T)
  recv_all rx zero slot st = ok ([], st)
  recv_all rx (suc count) slot st = do
    (o, st') ← recv rx slot st
    (os, st'') ← recv_all rx count slot st'
    ok (o ∷ os, st'')

abbrev values : {T : Type 0} → List T → List (Option T)
values [] = []
values (v ∷ vs) = some v ∷ values vs

module _ {T : Type 0} (f g n src : ℕ) (k : Kernel) where
  -- A channel for which no task waits, with this queue.
  Idle : Channel T → List T → Type 0
  Idle c xs = IsRing n c xs × (c.send_head ≡ null) × (c.recv_head ≡ null)

  fits_more :
      (v : T) (vs xs : List T)
      → length xs + length (v ∷ vs) ≤ n
      → (length xs < n) × (length (xs ++ (v ∷ [])) + length vs ≤ n)
  fits_more v vs xs le = (omega arith, omega (arith, length-append xs (v ∷ [])))

  send_all_lem :
      (vs xs : List T) (c : Channel T) (s : Slots T)
      → Idle c xs
      → length xs + length vs ≤ n
      → (c' : Channel T) × (s' : Slots T) × (send_all (sender f n) vs src (c, s, k)
          ≡ ok (c', s', k))
        × Idle c' (xs ++ vs)
  unfolding Idle send_all push
  send_all_lem [] xs c s idle le = (c, s, refl, subst (λ l. Idle c l) (sym (append-nil xs)) idle)
  send_all_lem (v ∷ vs) xs c s (ring, nobody, unheard) le =
      let (short, le') = fits_more v vs xs le in
      let (returns, ring') = send_queues f n c s k xs v src ring short unheard in
      let (c', s', sent, idle') =
        send_all_lem vs (xs ++ (v ∷ [])) (push n c v) (store s src v) (ring', nobody, unheard)
          le' in
      (c', s', rw (returns, sent) refl, subst (λ l. Idle c' l) (append_assoc xs (v ∷ []) vs) idle')

  recv_all_lem :
      (xs : List T) (c : Channel T) (s : Slots T)
      → Idle c xs
      → (c' : Channel T) × (recv_all (receiver g n) (length xs) src (c, s, k)
          ≡ ok (values xs, (c', s, k)))
        × Idle c' []
  unfolding Idle recv_all popped
  recv_all_lem [] c s idle = (c, refl, idle)
  recv_all_lem (x ∷ xs) c s (ring, nobody, unheard) =
      let (returns, ring') = recv_takes g n c s k x xs src ring nobody in
      let (c', taken, idle') = recv_all_lem xs (popped n c) s (ring', nobody, unheard) in
      (c', rw (returns, taken) refl, idle')

  -- Values that a sender sends into an empty channel for which no task waits come out of a receiver in the
  -- same order, if they are no more than the capacity. The channel is empty again, and no task was blocked.
  pub recv_all-send_all :
      (vs : List T) (c : Channel T) (s : Slots T)
      → IsRing n c []
      → c.send_head ≡ null
      → c.recv_head ≡ null
      → length vs ≤ n
      → (c₁ c₂ : Channel T) × (s' : Slots T) × (send_all (sender f n) vs src (c, s, k)
          ≡ ok (c₁, s', k))
        × (recv_all (receiver g n) (length vs) src (c₁, s', k) ≡ ok (values vs, (c₂, s', k)))
        × IsRing n c₂ []
  unfolding Idle
  recv_all-send_all vs c s ring nobody unheard le =
      let (c₁, s', sent, idle) =
        send_all_lem vs [] c s (ring, nobody, unheard) (omega (arith, le)) in
      let (c₂, taken, idle') = recv_all_lem vs c₁ s' idle in (c₁, c₂, s', sent, taken, idle'.0)
