-- ===== src/Tick/Peer.antt =====
-- What the two flags of `tick` say: a ready task of higher priority, or of the same priority.
use kangaroos.Base.{
  ℕ, zero, suc, ◌≤◌, ◌<◌, ◌≡◌, ◌≢◌, refl, ap, ◌∙◌, Bool, true, false, not, ◌&&◌, ◌||◌, inl, inr,
  List, [], ◌∷◌, arith, ◌==◌, ltb, ◌∈◌, length, ==-false_of_ne, Bool-cases,
}
use kangaroos.Run.{ok}
use kangaroos.Tcb.{null, Tasks, is_ready}
use kangaroos.WaitList.Links.{first}
use kangaroos.Scheduler.Chain.{Chain}
use kangaroos.Tick.{find_peer}
use kangaroos.Tick.Wake.{woken, preempts}

module _ (current now cur_prio : ℕ) (h : Tasks) where
  pub preempts-false :
      (xs : List ℕ) (a : ℕ)
      → preempts current now cur_prio xs h ≡ false
      → a ∈ xs
      → a ≢ current
      → is_ready (woken now (h a)).state ≡ true
      → cur_prio ≤ (h a).priority
  preempts-false [] a e m n r = cc
  preempts-false (x ∷ xs) a e m n r = elim (Bool-cases (a == x)) [
    | inl is ↦ ground arith
    | inr other ↦ preempts-false xs a (ground arith) (ground arith) n r
  ]

  pub preempts-true :
      (xs : List ℕ)
      → preempts current now cur_prio xs h ≡ true
      → (a : ℕ) × (a ∈ xs)
        × (a ≢ current)
        × (is_ready (woken now (h a)).state ≡ true)
        × ((h a).priority < cur_prio)
  preempts-true [] e = absurd (ground arith)
  preempts-true (x ∷ xs) e =
      elim (Bool-cases
        (not (x == current) && (is_ready (woken now (h x)).state && ltb (h x).priority cur_prio))) [
          | inl hit ↦ (x, ground arith, ground arith, ground arith, ground arith)
          | inr miss ↦
              let (a, m, n, r, p) = preempts-true xs (rw miss at e) in (a, ground arith, n, r, p)
        ]

-- Some other task of the list is ready and has the current priority.
abbrev pub peer : (current cur_prio : ℕ) → List ℕ → Tasks → Bool
peer current cur_prio [] h = false
peer current cur_prio (x ∷ xs) h =
    (not (x == current) && (is_ready (h x).state && ((h x).priority == cur_prio)))
    || peer current cur_prio xs h

module _ (current cur_prio : ℕ) (h : Tasks) where
  find_peer_step :
      (f x : ℕ) (r : Bool)
      → x ≢ null
      → find_peer f h current cur_prio (h x).all_next ≡ ok r
      → find_peer (suc f) h current cur_prio x
        ≡ ok ((not (x == current) && (is_ready (h x).state && ((h x).priority == cur_prio))) || r)
  unfolding find_peer
  find_peer_step f x r nn e = rw (==-false_of_ne x 0 nn, e) (ground arith)

  pub find_peer_lem :
      (f : ℕ) (xs : List ℕ)
      → Chain h xs
      → length xs < f
      → find_peer f h current cur_prio (first xs) ≡ ok (peer current cur_prio xs h)
  find_peer_lem zero xs c fuel = absurd (omega arith)
  find_peer_lem (suc f) [] c fuel = unfold find_peer in refl
  find_peer_lem (suc f) (x ∷ xs) c fuel =
      find_peer_step f x (peer current cur_prio xs h) c.0
        (ap (find_peer f h current cur_prio) c.2 ∙ find_peer_lem f xs c.3 (omega arith))

  pub peer-false :
      (xs : List ℕ) (a : ℕ)
      → peer current cur_prio xs h ≡ false
      → a ∈ xs
      → a ≢ current
      → is_ready (h a).state ≡ true
      → (h a).priority ≢ cur_prio
  peer-false [] a e m n r = cc
  peer-false (x ∷ xs) a e m n r = elim (Bool-cases (a == x)) [
    | inl is ↦ ground arith
    | inr other ↦ peer-false xs a (ground arith) (ground arith) n r
  ]

  pub peer-true :
      (xs : List ℕ)
      → peer current cur_prio xs h ≡ true
      → (a : ℕ) × (a ∈ xs)
        × (a ≢ current)
        × (is_ready (h a).state ≡ true)
        × ((h a).priority ≡ cur_prio)
  peer-true [] e = absurd (ground arith)
  peer-true (x ∷ xs) e =
      elim (Bool-cases
        (not (x == current) && (is_ready (h x).state && ((h x).priority == cur_prio)))) [
          | inl hit ↦ (x, ground arith, ground arith, ground arith, ground arith)
          | inr miss ↦
              let (a, m, n, r, p) = peer-true xs (rw miss at e) in (a, ground arith, n, r, p)
        ]
