-- ===== src/Pick.antt =====
-- What the scheduler's scans promise: the first of the eligible tasks with the least priority number.
use kangaroos.Base.{
  ℕ, ◌≤◌, ◌<◌, ◌≡◌, ◌≢◌, ◌⊎◌, inl, inr, refl, Bool, true, false, ◌&&◌, ◌||◌, List, [], ◌∷◌, ◌++◌,
  arith, ltb, ◌==◌, if◌then◌else◌, Bool-cases, has, ◌∈◌, has-append, ap, subst₂, fun_ext,
}

-- Addresses of tasks: none of them is null.
abbrev pub Nonnull : List ℕ → Type 0
Nonnull [] = Unit {0}
Nonnull (x ∷ xs) = (x ≢ 0) × Nonnull xs

module _ (fit : ℕ → Bool) (prio : ℕ → ℕ) where
  -- Every fit task of the list has a priority number above `n`.
  abbrev pub Above : ℕ → List ℕ → Type 0
  Above n [] = Unit {0}
  Above n (x ∷ xs) = (fit x ≡ true → n < prio x) × Above n xs

  -- Every fit task of the list has a priority number of at least `n`.
  abbrev pub AtLeast : ℕ → List ℕ → Type 0
  AtLeast n [] = Unit {0}
  AtLeast n (x ∷ xs) = (fit x ≡ true → n ≤ prio x) × AtLeast n xs

  abbrev pub NoneFit : List ℕ → Type 0
  NoneFit [] = Unit {0}
  NoneFit (x ∷ xs) = (fit x ≡ false) × NoneFit xs

  -- `b` is fit, no fit task has a lesser number, and no fit task before it has the same.
  pub record Picks (xs : List ℕ) (b : ℕ) : Type 0 where
    pub before : List ℕ
    pub after : List ℕ
    pub split : xs ≡ before ++ (b ∷ after)
    pub fits : fit b ≡ true
    pub earlier : Above (prio b) before
    pub later : AtLeast (prio b) after

  -- One round of a scan, with 0 for no task yet.
  abbrev pub better : ℕ → ℕ → ℕ
  better best x = if fit x && ((best == 0) || ltb (prio x) (prio best)) then x else best

  unfoldable pub best_of : ℕ → List ℕ → ℕ
  best_of best [] = best
  best_of best (x ∷ xs) = best_of (better best x) xs

  -- What is known of `best_of`: the start was not beaten, or the answer is a pick that beats it.
  abbrev Outcome : ℕ → List ℕ → ℕ → Type 0
  Outcome best xs b =
      ((b ≡ best) × (best ≢ 0 → AtLeast (prio best) xs) × (best ≡ 0 → NoneFit xs))
      ⊎ (Picks xs b × ((best ≡ 0) ⊎ (prio b < prio best)))

  Outcome-take :
      (best x b : ℕ) (xs : List ℕ)
      → x ≢ 0
      → fit x ≡ true
      → (best ≡ 0) ⊎ (prio x < prio best)
      → Outcome x xs b
      → Outcome best (x ∷ xs) b
  Outcome-take best x b xs nn f win (inl (same, least, _)) = inr (
    record {
      before = [];
      after = xs;
      split = ground arith;
      fits = ground arith;
      earlier = tt;
      later = rw same (least nn);
    },
    rw same win,
  )
  Outcome-take best x b xs nn f win (inr (p, w)) = inr (
    record {
      before = x ∷ p.before;
      after = p.after;
      split = ground (arith, p.split);
      fits = p.fits;
      earlier = ground arith;
      later = p.later;
    },
    ground arith,
  )

  Outcome-skip :
      (best x b : ℕ) (xs : List ℕ)
      → (fit x ≡ true → (best ≢ 0) × (prio best ≤ prio x))
      → Outcome best xs b
      → Outcome best (x ∷ xs) b
  Outcome-skip best x b xs lost (inl (same, least, none_fit)) =
      inl (same, λ n. ((λ f. (lost f).1), least n), λ z. (ground arith, none_fit z))
  Outcome-skip best x b xs lost (inr (p, w)) = inr (
    record {
      before = x ∷ p.before;
      after = p.after;
      split = ground (arith, p.split);
      fits = p.fits;
      earlier = ((λ f. ground (arith, lost f)), p.earlier);
      later = p.later;
    },
    w,
  )

  best_of-Outcome : (best : ℕ) (xs : List ℕ) → Nonnull xs → Outcome best xs (best_of best xs)
  unfolding best_of
  best_of-Outcome best [] nn = inl (refl, λ _. tt, λ _. tt)
  best_of-Outcome best (x ∷ xs) nn =
      elim (Bool-cases (fit x && ((best == 0) || ltb (prio x) (prio best)))) [
        | inl wins ↦ rw wins (
            Outcome-take best x _ xs nn.0 (ground arith) (ground arith) (best_of-Outcome x xs nn.1))
        | inr loses ↦
            rw loses (Outcome-skip best x _ xs (ground arith) (best_of-Outcome best xs nn.1))
      ]

  -- A scan that starts with no task finds a pick, or there is no fit task.
  pub best_of_zero :
      (xs : List ℕ) → Nonnull xs → ((best_of 0 xs ≡ 0) × NoneFit xs) ⊎ Picks xs (best_of 0 xs)
  best_of_zero xs nn = elim (best_of-Outcome 0 xs nn) [
    | inl (same, _, none_fit) ↦ inl (same, none_fit refl)
    | inr (p, _) ↦ inr p
  ]

  -- A scan that starts with the head of the list finds a pick.
  pub best_of-Picks :
      (x : ℕ) (xs : List ℕ) → fit x ≡ true → Nonnull (x ∷ xs) → Picks (x ∷ xs) (best_of x xs)
  best_of-Picks x xs f nn =
      elim (Outcome-take 0 x _ xs nn.0 f (inl refl) (best_of-Outcome x xs nn.1)) [
        | inl (zero_b, _, none_fit) ↦ absurd (ground (arith, none_fit refl))
        | inr (p, _) ↦ p
      ]

  pub NoneFit-mem : (i : ℕ) (xs : List ℕ) → NoneFit xs → i ∈ xs → fit i ≡ false
  NoneFit-mem i [] none_fit m = cc
  NoneFit-mem i (x ∷ xs) none_fit m = ground (arith, NoneFit-mem i xs none_fit.1)

  pub Above-mem : (n i : ℕ) (xs : List ℕ) → Above n xs → i ∈ xs → fit i ≡ true → n < prio i
  Above-mem n i [] h m f = cc
  Above-mem n i (x ∷ xs) h m f = ground (arith, Above-mem n i xs h.1)

  pub AtLeast-mem : (n i : ℕ) (xs : List ℕ) → AtLeast n xs → i ∈ xs → fit i ≡ true → n ≤ prio i
  AtLeast-mem n i [] h m f = cc
  AtLeast-mem n i (x ∷ xs) h m f = ground (arith, AtLeast-mem n i xs h.1)

  pub Picks-mem : (xs : List ℕ) (b : ℕ) → Picks xs b → b ∈ xs
  Picks-mem xs b p = rw (p.split, has-append b p.before (b ∷ p.after)) (ground arith)

  -- No fit task has a lesser priority number than the pick.
  pub Picks-le : (xs : List ℕ) (b i : ℕ) → Picks xs b → i ∈ xs → fit i ≡ true → prio b ≤ prio i
  Picks-le xs b i p m f = ground (
    arith,
    ap (has i) p.split,
    has-append i p.before (b ∷ p.after),
    Above-mem (prio b) i p.before p.earlier,
    AtLeast-mem (prio b) i p.after p.later,
  )

pub Nonnull-append : (xs ys : List ℕ) → Nonnull xs → Nonnull ys → Nonnull (xs ++ ys)
Nonnull-append [] ys hx hy = hy
Nonnull-append (x ∷ xs) ys hx hy = (hx.0, Nonnull-append xs ys hx.1 hy)

pub Nonnull-mem : (i : ℕ) (xs : List ℕ) → Nonnull xs → i ∈ xs → i ≢ 0
Nonnull-mem i [] nn m = cc
Nonnull-mem i (x ∷ xs) nn m = ground (arith, Nonnull-mem i xs nn.1)

-- The pick depends on the tests and the priorities only.
pub Picks-ext :
    (f g : ℕ → Bool) (p q : ℕ → ℕ) (xs : List ℕ) (b : ℕ)
    → ((a : ℕ) → f a ≡ g a)
    → ((a : ℕ) → p a ≡ q a)
    → Picks f p xs b
    → Picks g q xs b
Picks-ext f g p q xs b same_fit same_prio =
    subst₂ (λ s t. Picks f p xs b → Picks s t xs b) (fun_ext same_fit) (fun_ext same_prio) (λ r. r)

module _ (fit : ℕ → Bool) where
  pub AtLeast-weaken :
      (p q : ℕ → ℕ) (n m : ℕ) (xs : List ℕ)
      → m ≤ n
      → ((a : ℕ) → a ∈ xs → q a ≡ p a)
      → AtLeast fit p n xs
      → AtLeast fit q m xs
  AtLeast-weaken p q n m [] h same l = tt
  AtLeast-weaken p q n m (x ∷ xs) h same l =
      (ground (arith, same x), AtLeast-weaken p q n m xs h (λ a i. same a (ground arith)) l.1)

  Above-append :
      (p : ℕ → ℕ) (n : ℕ) (xs ys : List ℕ)
      → Above fit p n xs
      → AtLeast fit p n ys
      → AtLeast fit p n (xs ++ ys)
  Above-append p n [] ys a l = l
  Above-append p n (x ∷ xs) ys a l = (λ f. omega (arith, a.0 f), Above-append p n xs ys a.1 l)

  -- The pick has the least priority number among those that are left, too.
  pub Picks-rest :
      (p : ℕ → ℕ) (xs : List ℕ) (b : ℕ) (k : Picks fit p xs b)
      → AtLeast fit p (p b) (k.before ++ k.after)
  Picks-rest p xs b k = Above-append p (p b) k.before k.after k.earlier k.later
