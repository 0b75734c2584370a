-- ===== src/Tick/Wake.antt =====
-- The fused pass of `tick` wakes every sleeper whose deadline has come, whatever the flag, and says
-- whether a ready task has a higher priority than the current one.
use kangaroos.Base.{
  ℕ, zero, suc, ◌<◌, ◌≡◌, ◌≢◌, refl, ap, ap₂, fun_ext, ◌∙◌, Bool, false, not, ◌&&◌, ◌||◌, List, [],
  ◌∷◌, arith, ◌==◌, ltb, if◌then◌else◌, has, ◌∉◌, length, ==-false_of_ne,
}
use kangaroos.Run.{ok}
use kangaroos.Tcb.{null, Tcb, Tasks, ready, is_ready, set_state}
use kangaroos.WaitList.Links.{first}
use kangaroos.Scheduler.Chain.{Chain, Chain-frame}
use kangaroos.Tick.{due, wake_one, preempts_one, wake}

-- A task after its visit.
abbrev pub woken : ℕ → Tcb → Tcb
woken now t = if due now t.state then record t { state = ready t.time_slice } else t

module _ (current now cur_prio : ℕ) where
  -- All tasks of the list but the current one are woken if they are due.
  abbrev pub woken_all : List ℕ → Tasks → Tasks
  woken_all xs h a = if has a xs && not (a == current) then woken now (h a) else h a

  -- Some other task of the list is then ready and has a higher priority.
  abbrev pub preempts : List ℕ → Tasks → Bool
  preempts [] h = false
  preempts (x ∷ xs) h =
      (not (x == current) && (is_ready (woken now (h x)).state && ltb (h x).priority cur_prio))
      || preempts xs h

  visited : Tasks → ℕ → Tasks
  visited h x = if x == current then h else wake_one now h x

  visited_lem :
      (h : Tasks) (x a : ℕ)
      → visited h x a ≡ (if (a == x) && not (a == current) then woken now (h a) else h a)
  unfolding visited wake_one set_state
  visited_lem h x a = ground arith

  preempts-visited :
      (h : Tasks) (x : ℕ) (xs : List ℕ) → x ∉ xs → preempts xs (visited h x) ≡ preempts xs h
  preempts-visited h x [] out = refl
  preempts-visited h x (y ∷ ys) out =
      let same : visited h x y ≡ h y = visited_lem h x y ∙ ground arith in
      rw (same, preempts-visited h x ys (ground arith))

  woken_all-visited :
      (h : Tasks) (x : ℕ) (xs : List ℕ) → x ∉ xs → woken_all xs (visited h x) ≡ woken_all (x ∷ xs) h
  woken_all-visited h x xs out = fun_ext λ a. ground (arith, visited_lem h x a)

  visited-all_next : (h : Tasks) (x a : ℕ) → (visited h x a).all_next ≡ (h a).all_next
  visited-all_next h x a = rw (visited_lem h x a) (ground arith)

  -- The flag after the visit of `x`.
  preempt_flag : (p : Bool) (h : Tasks) (x : ℕ) → Bool
  preempt_flag p h x = if x == current then p else p || preempts_one cur_prio (visited h x) x

  preempt_flag_lem :
      (p : Bool) (h : Tasks) (x : ℕ) (rest : Bool)
      → (preempt_flag p h x || rest) ≡ (
          p
          || ((not (x == current)
                && (is_ready (woken now (h x)).state && ltb (h x).priority cur_prio))
              || rest))
  unfolding preempt_flag preempts_one
  preempt_flag_lem p h x rest = rw (visited_lem h x x) (ground arith)

  wake_step :
      (f : ℕ) (p : Bool) (h : Tasks) (x : ℕ)
      → x ≢ null
      → wake (suc f) current now cur_prio p h x
        ≡ wake f current now cur_prio (preempt_flag p h x) (visited h x) (visited h x x).all_next
  unfolding wake visited preempt_flag
  wake_step f p h x nn = rw (==-false_of_ne x 0 nn)

  -- The pass ends, and is given by these functions.
  pub wake_lem :
      (f : ℕ) (p : Bool) (h : Tasks) (xs : List ℕ)
      → Chain h xs
      → length xs < f
      → wake f current now cur_prio p h (first xs) ≡ ok (p || preempts xs h, woken_all xs h)
  wake_lem zero p h xs c fuel = absurd (omega arith)
  wake_lem (suc f) p h [] c fuel = unfold wake in ground arith
  wake_lem (suc f) p h (x ∷ xs) c fuel =
      wake_step f p h x c.0
      ∙ ap (wake f current now cur_prio (preempt_flag p h x) (visited h x))
          (visited-all_next h x x ∙ c.2)
      ∙ wake_lem f (preempt_flag p h x) (visited h x) xs
          (Chain-frame h (visited h x) xs (visited-all_next h x) c.3) (omega arith)
      ∙ ap₂ (λ b g. ok (b, g))
          (ap (◌||◌ (preempt_flag p h x)) (preempts-visited h x xs c.1)
            ∙ preempt_flag_lem p h x (preempts xs h))
          (woken_all-visited h x xs c.1)
