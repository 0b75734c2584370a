-- ===== src/Base/Lists.antt =====
-- Lists of task addresses: their length over the native numbers, and membership as a test.
use Prim.Native.Nat.{ℕ, suc, ◌+◌}
use mathlib.Core.Path.{◌≡◌, refl, ap}
use mathlib.Core.Bool.{Bool, true, false, ◌||◌}
use mathlib.Core.List.{List, [], ◌∷◌, ◌++◌}
use mathlib.Core.Logic.{inl, inr}
use native.Mathlib.Omega.{arith}
use kangaroos.Base.Tests.{◌==◌, if◌then◌else◌, Bool-cases}

module _ {ℓ} {A : Type ℓ} where
  abbrev pub length : List A → ℕ
  length [] = 0
  length (x ∷ xs) = suc (length xs)

  pub length-append : (xs ys : List A) → length (xs ++ ys) ≡ length xs + length ys
  length-append [] ys = omega arith
  length-append (x ∷ xs) ys = omega (arith, length-append xs ys)

abbrev pub has : ℕ → List ℕ → Bool
has a [] = false
has a (x ∷ xs) = (a == x) || has a xs

infix 40 ◌∈◌ ◌∉◌
abbrev pub ◌∈◌ : ℕ → List ℕ → Type 0
a ∈ xs = has a xs ≡ true

abbrev pub ◌∉◌ : ℕ → List ℕ → Type 0
a ∉ xs = has a xs ≡ false

pub has-append : (a : ℕ) (xs ys : List ℕ) → has a (xs ++ ys) ≡ (has a xs || has a ys)
has-append a [] ys = refl
has-append a (x ∷ xs) ys = ground (arith, has-append a xs ys)

-- The part of a list in front of an element, and the part behind it.
unfoldable pub before_of : ℕ → List ℕ → List ℕ
before_of c [] = []
before_of c (x ∷ xs) = if x == c then [] else x ∷ before_of c xs

unfoldable pub after_of : ℕ → List ℕ → List ℕ
after_of c [] = []
after_of c (x ∷ xs) = if x == c then xs else after_of c xs

pub split_at : (c : ℕ) (xs : List ℕ) → c ∈ xs → xs ≡ before_of c xs ++ (c ∷ after_of c xs)
unfolding before_of after_of
split_at c [] m = cc
split_at c (x ∷ xs) m = elim (Bool-cases (x == c)) [
  | inl here ↦ rw here (ground arith)
  | inr there ↦ rw there (ap (◌∷◌ x) (split_at c xs (ground arith)))
]
