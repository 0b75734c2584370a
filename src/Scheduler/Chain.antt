-- ===== src/Scheduler/Chain.antt =====
-- What the `all_next` pointers stand for: the list of all tasks.
use kangaroos.Base.{ℕ, ◌≡◌, ◌≢◌, List, [], ◌∷◌, ◌++◌, arith, ◌∉◌, has-append, refl, ◌∙◌}
use kangaroos.Tcb.{Ptr, null, Tasks}
use kangaroos.Pick.{Nonnull}
use kangaroos.WaitList.Links.{first}

-- The tasks are distinct, and each has the address of the next one.
abbrev pub Chain : Tasks → List ℕ → Type 0
Chain h [] = Unit {0}
Chain h (x ∷ xs) = (x ≢ null) × (x ∉ xs) × ((h x).all_next ≡ first xs) × Chain h xs

pub Chain-frame :
    (h g : Tasks) (xs : List ℕ)
    → ((a : ℕ) → (g a).all_next ≡ (h a).all_next)
    → Chain h xs
    → Chain g xs
Chain-frame h g [] same c = tt
Chain-frame h g (x ∷ xs) same c = (c.0, c.1, ground (arith, same x), Chain-frame h g xs same c.3)

abbrev pub head_or : Ptr → List ℕ → Ptr
head_or stop [] = stop
head_or stop (x ∷ xs) = x

-- A part of the list, up to the task at `stop`.
abbrev pub Segment : Tasks → Ptr → List ℕ → Type 0
Segment h stop [] = Unit {0}
Segment h stop (x ∷ xs) =
    (x ≢ null) × (x ≢ stop) × ((h x).all_next ≡ head_or stop xs) × Segment h stop xs

pub head_or-first : (xs : List ℕ) → first xs ≡ head_or null xs
head_or-first [] = refl
head_or-first (x ∷ xs) = refl

pub first-append : (ys zs : List ℕ) → first (ys ++ zs) ≡ head_or (first zs) ys
first-append [] zs = refl
first-append (y ∷ ys) zs = refl

ne-first : (x : ℕ) (zs : List ℕ) → x ≢ null → x ∉ zs → x ≢ first zs
ne-first x [] nn out = nn
ne-first x (z ∷ zs) nn out = ground arith

pub Chain-Segment : (h : Tasks) (ys zs : List ℕ) → Chain h (ys ++ zs) → Segment h (first zs) ys
Chain-Segment h [] zs c = tt
Chain-Segment h (y ∷ ys) zs c = (
  c.0,
  ne-first y zs c.0 (ground (arith, has-append y ys zs)),
  c.2 ∙ first-append ys zs,
  Chain-Segment h ys zs c.3,
)

-- The task in the middle of the list.
pub Chain-middle :
    (h : Tasks) (ys : List ℕ) (x : ℕ) (zs : List ℕ)
    → Chain h (ys ++ (x ∷ zs))
    → (x ≢ null) × (x ∉ ys) × (x ∉ zs) × ((h x).all_next ≡ first zs) × Chain h zs
Chain-middle h [] x zs c = (c.0, refl, c.1, c.2, c.3)
Chain-middle h (y ∷ ys) x zs c =
    let m = Chain-middle h ys x zs c.3 in
    (m.0, ground (arith, has-append y ys (x ∷ zs)), m.2, m.3, m.4)

pub Chain-Segment_all : (h : Tasks) (xs : List ℕ) → Chain h xs → Segment h null xs
Chain-Segment_all h [] c = tt
Chain-Segment_all h (x ∷ xs) c = (c.0, c.0, c.2 ∙ head_or-first xs, Chain-Segment_all h xs c.3)

pub Chain-Nonnull : (h : Tasks) (xs : List ℕ) → Chain h xs → Nonnull xs
Chain-Nonnull h [] c = tt
Chain-Nonnull h (x ∷ xs) c = (c.0, Chain-Nonnull h xs c.3)
