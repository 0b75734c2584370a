-- ===== src/WaitList/Links.antt =====
-- What the pointers of a wait list stand for: the list of the waiting tasks, the latest first.
use kangaroos.Base.{
  ℕ, ◌≡◌, ◌≢◌, ap, ◌∙◌, inl, inr, Bool-cases, eq_of_==, List, [], ◌∷◌, arith, ◌==◌, ◌∈◌, ◌∉◌,
}
use kangaroos.Tcb.{Ptr, null, Tasks, TaskState, blocked, set_state}

-- The pointer to a list.
abbrev pub first : List ℕ → Ptr
first [] = null
first (x ∷ xs) = x

-- The tasks are distinct and blocked, each with the address of the next one.
abbrev pub Links : Tasks → List ℕ → Type 0
Links h [] = Unit {0}
Links h (x ∷ xs) = (x ≢ null) × (x ∉ xs) × ((h x).state ≡ blocked (first xs)) × Links h xs

pub Links-frame :
    (h g : Tasks) (xs : List ℕ)
    → ((a : ℕ) → a ∈ xs → (g a).state ≡ (h a).state)
    → Links h xs
    → Links g xs
Links-frame h g [] same l = tt
Links-frame h g (x ∷ xs) same l =
    (l.0, l.1, ground (arith, same x), Links-frame h g xs (λ a m. ground (arith, same a)) l.3)

-- A change of the state of a task that does not wait here leaves the list alone.
pub Links-set_state :
    (h : Tasks) (a : Ptr) (s : TaskState) (xs : List ℕ)
    → a ∉ xs
    → Links h xs
    → Links (set_state h a s) xs
unfolding set_state
Links-set_state h a s xs out = Links-frame h (set_state h a s) xs (λ b m. ground arith)

-- A waiter is blocked.
pub Links-blocked :
    (h : Tasks) (xs : List ℕ) (a : ℕ) → Links h xs → a ∈ xs → (q : Ptr) × ((h a).state ≡ blocked q)
Links-blocked h [] a l m = cc
Links-blocked h (x ∷ xs) a l m = elim (Bool-cases (a == x)) [
  | inl e ↦ (first xs, ap (λ b. (h b).state) (eq_of_== a x e) ∙ l.2)
  | inr e ↦ Links-blocked h xs a l.3 (ground arith)
]
