-- ===== src/WaitList/Push.antt =====
-- `block_and_push` puts a task that does not wait yet in front of the waiters.
use kangaroos.Base.{ℕ, ◌≡◌, ◌≢◌, List, ◌∷◌, ◌∉◌, ==-false_of_ne, ap}
use kangaroos.Run.{ok}
use kangaroos.Tcb.{Ptr, null, Tasks, blocked, load, set_state, set_state_self}
use kangaroos.WaitList.Links.{first, Links, Links-set_state}
use kangaroos.WaitList.{block_and_push}

module _ (h : Tasks) (t : Ptr) (xs : List ℕ) (nn : t ≢ null) where
  pub push-eq : block_and_push h (first xs) t ≡ ok (t, set_state h t (blocked (first xs)))
  unfolding block_and_push load
  push-eq = rw (==-false_of_ne t 0 nn)

  pub push-Links : t ∉ xs → Links h xs → Links (set_state h t (blocked (first xs))) (t ∷ xs)
  push-Links out l = (
    nn,
    out,
    ap (λ u. u.state) (set_state_self h t (blocked (first xs))),
    Links-set_state h t (blocked (first xs)) xs out l,
  )
