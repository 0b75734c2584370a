-- ===== src/Channel/Ring.antt =====
-- The ring buffer of a channel as a queue.
use kangaroos.Base.{
  ℕ, ◌+◌, ◌-◌, ◌%◌, ◌≤◌, ◌<◌, ◌≡◌, refl, ap, ◌∙◌, List, [], ◌∷◌, ◌++◌, length, length-append, some,
  ltb, if◌then◌else◌, arith, inl, inr, Bool-cases,
}
use native.Mathlib.Nat.{mod-eq_of_lt, mod_self}
use kangaroos.Run.{ok}
use kangaroos.Slots.{Slots, store}
use kangaroos.Channel.{Channel, push, pop}

-- The index `i` places behind `h`.
abbrev pub place : (n h i : ℕ) → ℕ
place n h i = if ltb (h + i) n then h + i else h + i - n

pub next-place : (n h : ℕ) → h < n → (h + 1) % n ≡ place n h 1
next-place n h lt = elim (Bool-cases (ltb (h + 1) n)) [
  | inl e ↦ mod-eq_of_lt (ground arith) ∙ ground arith
  | inr e ↦
      let whole : h + 1 ≡ n = ground arith in ap (λ m. m % n) whole ∙ mod_self n ∙ ground arith
]

module _ {T : Type 0} (n : ℕ) where
  -- The buffer holds the values `xs` from the index `h` on.
  abbrev pub Holds : Slots T → ℕ → List T → Type 0
  Holds s h [] = Unit {0}
  Holds s h (x ∷ xs) = (s h ≡ some x) × Holds s (place n h 1) xs

  Holds-store :
      (s : Slots T) (v : T) (xs : List T) (h t : ℕ)
      → h < n
      → length xs < n
      → t ≡ place n h (length xs)
      → Holds s h xs
      → Holds (store s t v) h (xs ++ (v ∷ []))
  unfolding store
  Holds-store s v [] h t lt short e hs = (ground arith, tt)
  Holds-store s v (x ∷ xs) h t lt short e hs = (
    ground arith,
    Holds-store s v xs (place n h 1) t (ground arith) (omega arith) (ground arith) hs.1,
  )

-- The channel's buffer is the queue `xs`.
pub record IsRing {T : Type 0} (n : ℕ) (c : Channel T) (xs : List T) : Type 0 where
  pub head_lt : c.head < n
  pub size : c.count ≡ length xs
  pub fits : length xs ≤ n
  pub tail_at : c.tail ≡ place n c.head (length xs)
  pub holds : Holds n c.buf c.head xs

module _ {T : Type 0} (n : ℕ) (c : Channel T) where
  pub push-IsRing :
      (v : T) (xs : List T) → IsRing n c xs → length xs < n → IsRing n (push n c v) (xs ++ (v ∷ []))
  unfolding push
  push-IsRing v xs r room = record {
    head_lt = r.head_lt;
    size = omega (arith, r.size, length-append xs (v ∷ []));
    fits = omega (arith, length-append xs (v ∷ []));
    tail_at =
        next-place n c.tail (ground (arith, r.tail_at, r.head_lt))
        ∙ ground (arith, r.tail_at, r.head_lt, length-append xs (v ∷ []));
    holds = Holds-store n c.buf v xs c.head c.tail r.head_lt room r.tail_at r.holds;
  }

  unfoldable pub popped : Channel T
  popped = record c { head = (c.head + 1) % n; count = c.count - 1 }

  pub pop-eq : (x : T) (xs : List T) → IsRing n c (x ∷ xs) → pop n c ≡ ok (x, popped)
  unfolding pop popped
  pop-eq x xs r = rw (r.holds.0) refl

  pub popped-IsRing : (x : T) (xs : List T) → IsRing n c (x ∷ xs) → IsRing n popped xs
  unfolding popped
  popped-IsRing x xs r =
      let e = next-place n c.head r.head_lt in
      record {
        head_lt = ground (arith, e, r.head_lt);
        size = omega (arith, r.size);
        fits = omega (arith, r.fits);
        tail_at = ground (arith, e, r.tail_at, r.head_lt, r.fits);
        holds = rw e r.holds.1;
      }
