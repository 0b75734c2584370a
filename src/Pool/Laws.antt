-- ===== src/Pool/Laws.antt =====
-- The free list of a pool: which slots it holds, and what alloc and drop do to it.
use kangaroos.Base.{
  ℕ, zero, suc, ◌+◌, ◌≤◌, ◌<◌, ◌≡◌, ◌≢◌, refl, ap, ◌∙◌, true, false, List, [], ◌∷◌, length, ◌∉◌,
  none, some, ◌==◌, ltb, arith, ==-false_of_ne, Bool-cases, inl, inr,
}
use kangaroos.Run.{ok}
use kangaroos.Tcb.{null}
use kangaroos.Kernel.{Kernel}
use kangaroos.Slots.{Slots, store, erase}
use kangaroos.Pool.{Pool, no_slot, set_next, claim, alloc, count_free, available, box_drop}

abbrev pub first_slot : List ℕ → ℕ
first_slot [] = no_slot
first_slot (x ∷ xs) = x

-- The slots are distinct, and each has the index of the next one.
abbrev pub Frees : (n : ℕ) → (ℕ → ℕ) → List ℕ → Type 0
Frees n next [] = Unit {0}
Frees n next (x ∷ xs) = (x < n) × (x ∉ xs) × (next x ≡ first_slot xs) × Frees n next xs

-- Exactly the slots `xs` are free; each other slot of the pool holds a value.
pub record IsPool {T : Type 0} (n : ℕ) (p : Pool T) (xs : List ℕ) : Type 0 where
  pub small : n ≤ 255
  pub head : p.free_head ≡ first_slot xs
  pub frees : Frees n p.next xs
  pub live : (i : ℕ) → i < n → i ∉ xs → (v : T) × (p.nodes i ≡ some v)

Frees-set_next :
    (n : ℕ) (next : ℕ → ℕ) (i v : ℕ) (xs : List ℕ)
    → i ∉ xs
    → Frees n next xs
    → Frees n (set_next next i v) xs
unfolding set_next
Frees-set_next n next i v [] out r = tt
Frees-set_next n next i v (x ∷ xs) out r =
    (r.0, r.1, ground arith, Frees-set_next n next i v xs (ground arith) r.3)

count_free_lem :
    (f n : ℕ) (next : ℕ → ℕ) (count : ℕ) (xs : List ℕ)
    → n ≤ 255
    → Frees n next xs
    → length xs < f
    → count_free f n next count (first_slot xs) ≡ ok (count + length xs)
unfolding count_free
count_free_lem zero n next count xs small r fuel = absurd (omega arith)
count_free_lem (suc f) n next count [] small r fuel = ap (λ m. ok m) (omega arith)
count_free_lem (suc f) n next count (x ∷ xs) small r fuel =
    let inside : ltb x n ≡ true = ground arith in
    rw (==-false_of_ne x 255 (λ e. omega arith), inside, r.2)
      (count_free_lem f n next (count + 1) xs small r.3 (omega arith)
        ∙ ap (λ m. ok m) (omega arith))

module _ {T : Type 0} (n : ℕ) (p : Pool T) where
  -- The first free slot is taken and holds the value; the other slots keep theirs.
  pub claim_takes :
      (val : T) (x : ℕ) (xs : List ℕ)
      → IsPool n p (x ∷ xs)
      → (p' : Pool T) × (claim n p val ≡ ok (x, p'))
        × (p.free_head == no_slot ≡ false)
        × IsPool n p' xs
        × (p'.nodes x ≡ some val)
        × ((i : ℕ) → i ≢ x → p'.nodes i ≡ p.nodes i)
        × (p'.wait_head ≡ p.wait_head)
  unfolding claim store
  claim_takes val x xs is =
      let inside : ltb x n ≡ true = ground (arith, is.frees.0) in
      (
        record p { free_head = p.next x; nodes = store p.nodes x val },
        rw (is.head, inside) refl,
        ap (λ h. h == no_slot) is.head
            ∙ ==-false_of_ne x 255 (λ e. omega (arith, is.frees.0, is.small)),
        record {
          small = is.small;
          head = is.frees.2;
          frees = is.frees.3;
          live = λ i lt out. elim (Bool-cases (i == x)) [
            | inl e ↦ (val, rw e refl)
            | inr e ↦ let (v, q) = is.live i lt (ground arith) in (v, rw e q)
          ];
        },
        ground arith,
        λ i ne. ground arith,
        refl,
      )

  -- An alloc in a pool with free slots takes the first of them, which then holds the value; the other
  -- slots keep theirs.
  pub alloc_takes :
      (val : T) (x : ℕ) (xs : List ℕ)
      → IsPool n p (x ∷ xs)
      → (p' : Pool T) × (alloc n p val ≡ ok (some x, p'))
        × IsPool n p' xs
        × (p'.nodes x ≡ some val)
        × ((i : ℕ) → i ≢ x → p'.nodes i ≡ p.nodes i)
  unfolding alloc
  alloc_takes val x xs is =
      let (p', claims, some_free, pool, holds, others, _) = claim_takes val x xs is in
      (p', rw (some_free, claims) refl, pool, holds, others)

  -- The drop of the box of a slot that is not free, without tasks that wait, makes the slot the first
  -- free one.
  pub drop_frees :
      (f : ℕ) (stack : Slots T) (k : Kernel) (slot : ℕ) (xs : List ℕ)
      → IsPool n p xs
      → slot < n
      → slot ∉ xs
      → p.wait_head ≡ null
      → (p' : Pool T) × (box_drop f n p stack k slot ≡ ok (p', k))
        × IsPool n p' (slot ∷ xs)
        × (p'.wait_head ≡ p.wait_head)
  unfolding box_drop set_next erase
  drop_frees f stack k slot xs is lt out nobody =
      let inside : ltb slot n ≡ true = ground arith in
      let (v, holds) = is.live slot lt out in
      (
        record p {
          nodes = erase p.nodes slot;
          next = set_next p.next slot p.free_head;
          free_head = slot;
        },
        rw (inside, holds, nobody) refl,
        record {
          small = is.small;
          head = refl;
          frees =
              (lt, out, ground (arith, is.head), Frees-set_next n p.next slot _ xs out is.frees);
          live = λ i l o.
              let (u, q) = is.live i l (ground arith) in
              let other : (i == slot) ≡ false = ground arith in (u, rw other q);
        },
        refl,
      )

  -- `available` counts the free slots.
  pub available_lem :
      (f : ℕ) (xs : List ℕ) → IsPool n p xs → length xs < f → available f n p ≡ ok (length xs)
  unfolding available
  available_lem f xs is fuel =
      rw (is.head)
        (count_free_lem f n p.next 0 xs is.small is.frees fuel ∙ ap (λ m. ok m) (omega arith))

  -- An alloc in a pool without free slots fails and changes nothing.
  pub alloc_fails : (val : T) → IsPool n p [] → alloc n p val ≡ ok (none, p)
  unfolding alloc
  alloc_fails val is = rw (is.head) refl
