-- ===== src/Slots/Waiting.antt =====
-- Tasks that wait with the address of a stack slot, at a channel of kangaroos/src/channel/mod.rs or a pool of
-- kangaroos/src/mem/mod.rs.
use kangaroos.Base.{
  ℕ, ◌≡◌, ◌≢◌, ◌≤◌, ◌<◌, ◌⊎◌, inl, inr, refl, sym, ap, subst, ◌∙◌, Bool, true, false, ◌||◌, some,
  List, [], ◌∷◌, ◌++◌, length, length-append, ◌==◌, ltb, eq_of_==, ne_of_==, Bool-cases, has,
  has-append, if◌then◌else◌, arith, ◌∈◌, ◌∉◌,
}
use kangaroos.Run.{ok}
use kangaroos.Pick.{Picks}
use kangaroos.Tcb.{null, Tasks, blocked, set_state, set_wait_ptr, set_wait_ptr-state}
use kangaroos.Kernel.{Kernel, trigger_pendsv_if}
use kangaroos.WaitList.{block_and_push}
use kangaroos.WaitList.Links.{first, Links, Links-frame}
use kangaroos.WaitList.Pop.{prio, any_task}
use kangaroos.WaitList.Push.{push-eq, push-Links}
use kangaroos.Slots.{Slots, store}

pub trigger-tasks : (b : Bool) (g : Kernel) → (trigger_pendsv_if b g).tasks ≡ g.tasks
trigger-tasks true g = refl
trigger-tasks false g = refl

pub cons-ne-nil : {A : Type 0} (x : A) (xs : List A) → (x ∷ xs) ≢ []
cons-ne-nil x xs e = cc

pub nil-or-cons :
    {A : Type 0} (xs : List A) → (xs ≡ []) ⊎ ((x : A) × (rest : List A) × (xs ≡ x ∷ rest))
nil-or-cons [] = inl refl
nil-or-cons (x ∷ xs) = inr (x, xs, refl)

pub le-cases : (a b : ℕ) → a ≤ b → (a < b) ⊎ (a ≡ b)
le-cases a b le = elim (Bool-cases (ltb a b)) [
  | inl e ↦ inl (ground arith)
  | inr e ↦ inr (ground arith)
]

pub enough : (w : ℕ) (ws xs : List ℕ) (f : ℕ) → xs ≡ w ∷ ws → length xs ≤ f → length ws < f
enough w ws xs f e le = omega (arith, ap length e)

pub same_length :
    {T : Type 0} (x y : T) (xs : List T) (n : ℕ) → length (x ∷ xs) ≡ n → length (xs ++ (y ∷ [])) ≡ n
same_length x y xs n e = omega (arith, length-append xs (y ∷ []))

pub in_tail : (a p : ℕ) (xs : List ℕ) → a == p ≡ false → a ∈ p ∷ xs → a ∈ xs
in_tail a p xs n i = ground arith

pub store_self : {T : Type 0} (s : Slots T) (i : ℕ) (v : T) → store s i v i ≡ some v
unfolding store
store_self s i v = ground arith

pub store_ne : {T : Type 0} (s : Slots T) (i : ℕ) (v : T) (j : ℕ) → j ≢ i → store s i v j ≡ s j
unfolding store
store_ne s i v j ne = ground arith

-- A task that did not wait before, and starts to wait with the address `src`.
module _ (h : Tasks) (me src : ℕ) (ws : List ℕ) where
  unfoldable pub waiting_tasks : Tasks
  waiting_tasks = set_state (set_wait_ptr h me src) me (blocked (first ws))

  pub waiting_self : (waiting_tasks me).wait_ptr ≡ src
  unfolding waiting_tasks set_state set_wait_ptr
  waiting_self = ground arith

  pub waiting_tasks_self :
      waiting_tasks me ≡ record (h me) { state = blocked (first ws); wait_ptr = src }
  unfolding waiting_tasks set_state set_wait_ptr
  waiting_tasks_self = ground arith

  pub waiting_tasks_ne : (a : ℕ) → a ≢ me → waiting_tasks a ≡ h a
  unfolding waiting_tasks set_state set_wait_ptr
  waiting_tasks_ne a ne = ground arith

  pub waiting_ne : (a : ℕ) → a ≢ me → (waiting_tasks a).wait_ptr ≡ (h a).wait_ptr
  unfolding waiting_tasks set_state set_wait_ptr
  waiting_ne a ne = ground arith

  pub waiting-pushes :
      me ≢ null → block_and_push (set_wait_ptr h me src) (first ws) me ≡ ok (me, waiting_tasks)
  unfolding waiting_tasks
  waiting-pushes nn = push-eq (set_wait_ptr h me src) me ws nn

  pub waiting-Links : me ≢ null → me ∉ ws → Links h ws → Links waiting_tasks (me ∷ ws)
  unfolding waiting_tasks
  waiting-Links nn out l =
      push-Links (set_wait_ptr h me src) me ws nn out
        (Links-frame h (set_wait_ptr h me src) ws (λ a i. set_wait_ptr-state h me src a) l)

  pub waiting-places :
      (slots : ℕ → ℕ) (xs : List ℕ)
      → ((a : ℕ) → a ∈ xs → (h a).wait_ptr ≡ slots a)
      → (a : ℕ) → a ∈ me ∷ xs
      → (waiting_tasks a).wait_ptr ≡ (if a == me then src else slots a)
  waiting-places slots xs known a i = elim (Bool-cases (a == me)) [
    | inl e ↦ rw e (ap (λ b. (waiting_tasks b).wait_ptr) (eq_of_== a me e) ∙ waiting_self)
    | inr e ↦ rw e (waiting_ne a (ne_of_== a me e) ∙ known a (in_tail a me xs e i))
  ]

  pub waiting-values :
      {T : Type 0} (s : Slots T) (val : T) (parked : ℕ → T) (xs : List ℕ)
      → ((a : ℕ) → a ∈ xs → s (h a).wait_ptr ≡ some (parked a))
      → ((a : ℕ) → a ∈ xs → (h a).wait_ptr ≢ src)
      → (a : ℕ) → a ∈ me ∷ xs
      → store s src val (waiting_tasks a).wait_ptr ≡ some (if a == me then val else parked a)
  waiting-values s val parked xs known apart a i = elim (Bool-cases (a == me)) [
    | inl e ↦ rw e (
        ap (store s src val) (ap (λ b. (waiting_tasks b).wait_ptr) (eq_of_== a me e) ∙ waiting_self)
        ∙ store_self s src val)
    | inr e ↦
        let j = in_tail a me xs e i in
        rw e (
          ap (store s src val) (waiting_ne a (ne_of_== a me e))
          ∙ store_ne s src val (h a).wait_ptr (apart a j)
          ∙ known a j)
  ]

pub in_rest : (a b : ℕ) (ys zs xs : List ℕ) → xs ≡ ys ++ (b ∷ zs) → a ∈ ys ++ zs → a ∈ xs
in_rest a b ys zs xs e i =
    subst (λ l. a ∈ l) (sym e)
      (has-append a ys (b ∷ zs)
        ∙ spread (has a ys) (a == b) (has a zs) (sym (has-append a ys zs) ∙ i))
  where
    spread : (p q r : Bool) → (p || r) ≡ true → (p || (q || r)) ≡ true
    spread p q r k = ground arith

unfoldable pub Picks-of :
    (h : Tasks) (xs ys : List ℕ) (b : ℕ)
    → xs ≡ ys
    → Picks any_task (prio h) ys b
    → Picks any_task (prio h) xs b
Picks-of h xs ys b e p = record {
  before = p.before;
  after = p.after;
  split = e ∙ p.split;
  fits = p.fits;
  earlier = p.earlier;
  later = p.later;
}
