-- ===== src/Sync/EventGroup/Scan/Relink.antt =====
-- The link that a scan writes when it takes a task out of the middle of a list.
use kangaroos.Base.{
  ℕ, ◌≡◌, ◌≢◌, refl, Bool, true, false, ◌||◌, List, [], ◌∷◌, ◌++◌, arith, ◌==◌, ◌∈◌, ◌∉◌,
  has-append, ==-false_of_ne, none, some,
}
use kangaroos.Tcb.{Ptr, null, Tasks, blocked, write, set_state}
use kangaroos.WaitList.Links.{first, Links, Links-blocked}
use kangaroos.Pick.{Nonnull-mem}
use kangaroos.WaitList.Pop.{Links-Nonnull, last_of, mem-last_of, unlink-Links}
use kangaroos.Sync.EventGroup.{cut}

abbrev pub last_or_null : List ℕ → ℕ
last_or_null [] = null
last_or_null (x ∷ xs) = last_of x xs

pub last-snoc : (y : ℕ) (ys : List ℕ) (x : ℕ) → last_of y (ys ++ (x ∷ [])) ≡ x
last-snoc y [] x = refl
last-snoc y (z ∷ zs) x = last-snoc z zs x

pub last_or_null-snoc : (ps : List ℕ) (x : ℕ) → last_or_null (ps ++ (x ∷ [])) ≡ x
last_or_null-snoc [] x = refl
last_or_null-snoc (y ∷ ys) x = last-snoc y ys x

-- The last task that stays gets a new link.
abbrev pub relink : Tasks → List ℕ → Ptr → Tasks
relink h [] n = h
relink h (y ∷ ys) n = set_state h (last_of y ys) (blocked n)

pub cut_lem :
    (h : Tasks) (ps : List ℕ) (x : ℕ) (xs : List ℕ)
    → Links h (ps ++ (x ∷ xs))
    → cut h (first (ps ++ (x ∷ xs))) (last_or_null ps) (first xs)
      ≡ (first (ps ++ xs), relink h ps (first xs))
unfolding cut
cut_lem h [] x xs l = refl
cut_lem h (y ∷ ys) x xs l =
    let m : last_of y ys ∈ (y ∷ ys ++ (x ∷ xs)) =
      ground (arith, mem-last_of y ys, has-append (last_of y ys) (y ∷ ys) (x ∷ xs)) in
    let (q, e) = Links-blocked h (y ∷ ys ++ (x ∷ xs)) (last_of y ys) l m in
    let nn : last_of y ys ≢ null =
      Nonnull-mem (last_of y ys) (y ∷ ys ++ (x ∷ xs)) (Links-Nonnull h (y ∷ ys ++ (x ∷ xs)) l) m in
    rw (==-false_of_ne (last_of y ys) 0 nn, e) refl

pub relink-Links :
    (h : Tasks) (ps : List ℕ) (x : ℕ) (xs : List ℕ)
    → Links h (ps ++ (x ∷ xs))
    → Links (relink h ps (first xs)) (ps ++ xs)
relink-Links h [] x xs l = l.3
relink-Links h (y ∷ ys) x xs l = unlink-Links x xs h y ys l

pub relink-same :
    (h : Tasks) (ps : List ℕ) (n : Ptr) (a : ℕ)
    → relink h ps n a ≡ record (h a) { state = (relink h ps n a).state }
unfolding set_state write
relink-same h [] n a = refl
relink-same h (y ∷ ys) n a = ground arith

pub relink_ne : (h : Tasks) (ps : List ℕ) (n : Ptr) (a : ℕ) → a ∉ ps → relink h ps n a ≡ h a
unfolding set_state write
relink_ne h [] n a out = refl
relink_ne h (y ∷ ys) n a out = ground (arith, mem-last_of y ys)

pub or_assoc : (a b c : Bool) → (a || b) || c ≡ a || (b || c)
or_assoc true b c = refl
or_assoc false b c = refl

pub some_injective : (v w : ℕ) → some v ≡ some w → v ≡ w
some_injective v w e = cc

pub some≢none : (v : ℕ) → some v ≢ none
some≢none v e = cc

pub in_tail : (a x : ℕ) (xs : List ℕ) → a == x ≡ false → a ∈ x ∷ xs → a ∈ xs
in_tail a x xs n i = ground arith

pub notin_cons : (a x : ℕ) (xs : List ℕ) → a ∉ x ∷ xs → (a ≢ x) × (a ∉ xs)
notin_cons a x xs out = ground arith
