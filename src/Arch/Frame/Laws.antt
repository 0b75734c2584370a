-- ===== src/Arch/Frame/Laws.antt =====
-- What the initial frame and the canary of a stack are.
use kangaroos.Base.{
  ℕ, suc, ◌+◌, ◌-◌, ◌*◌, ◌≡◌, ◌≢◌, ◌≤◌, ◌<◌, ◌⊎◌, inl, inr, refl, subst, ◌∙◌, true, false, List, [],
  ◌∷◌, ◌++◌, length, ltb, ==_self, ==-false_of_ne, arith,
}
use kangaroos.Run.{ok, panic}
use kangaroos.Arch.Cpu.{put, HasWords}
use kangaroos.Arch.Stub.{Context, words}
use kangaroos.Arch.Frame.{
  Slice, store_at, canary, canary_init, canary_check, fill, entry_pc, frame_words, stack_init,
}

ltb-false : (n : ℕ) → 21 ≤ n → ltb n 21 ≡ false
ltb-false n room = ground arith

store_at-ok :
    (m : ℕ → ℕ) (s : Slice) (i v : ℕ) → i < s.len → store_at m s i v ≡ ok (put m (s.ptr + 4 * i) v)
unfolding store_at
store_at-ok m s i v lt = ground arith

put_self : (m : ℕ → ℕ) (a v : ℕ) → put m a v a ≡ v
unfolding put
put_self m a v = rw (==_self a) refl

put_ne : (m : ℕ → ℕ) (a v j : ℕ) → j ≢ a → put m a v j ≡ m j
unfolding put
put_ne m a v j ne = rw (==-false_of_ne j a ne) refl

HasWords-put_below :
    (m : ℕ → ℕ) (p v b : ℕ) (ws : List ℕ) → p < b → HasWords m b ws → HasWords (put m p v) b ws
HasWords-put_below m p v b [] lt h = tt
HasWords-put_below m p v b (w ∷ ws) lt h = (
  put_ne m p v b (omega (arith, lt)) ∙ h.0,
  HasWords-put_below m p v (b + 4) ws (omega (arith, lt)) h.1,
)

-- The words in the order of their addresses.
abbrev pub upward : List ℕ → List ℕ → List ℕ
upward [] ws = ws
upward (v ∷ vs) ws = upward vs (v ∷ ws)

-- What the words from the top down leave: themselves, and all else as it was.
record Filled (m : ℕ → ℕ) (s : Slice) (i : ℕ) (vs ws : List ℕ) (m' : ℕ → ℕ) : Type 0 where
  returns : fill m s i vs ≡ ok m'
  filled : HasWords m' (s.ptr + 4 * (s.len - (i + length vs))) (upward vs ws)
  kept :
      (j : ℕ)
      → (j < s.ptr + 4 * (s.len - (i + length vs))) ⊎ (s.ptr + 4 * (s.len - i) ≤ j)
      → m' j ≡ m j

plus_zero : (i : ℕ) → i ≡ i + 0
plus_zero i = omega arith

below_outside :
    (p n i l j : ℕ)
    → i + suc l ≤ n
    → (j < p + 4 * (n - (i + suc l))) ⊎ (p + 4 * (n - i) ≤ j)
    → ((j < p + 4 * (n - (suc i + l))) ⊎ (p + 4 * (n - suc i) ≤ j)) × (j ≢ p + 4 * (n - suc i))
below_outside p n i l j room (inl lt) = (inl (omega arith), λ e. omega arith)
below_outside p n i l j room (inr ge) = (inr (omega arith), λ e. omega arith)

fill-Filled :
    (m : ℕ → ℕ) (s : Slice) (i : ℕ) (vs ws : List ℕ)
    → i + length vs ≤ s.len
    → HasWords m (s.ptr + 4 * (s.len - i)) ws
    → (m' : ℕ → ℕ) × Filled m s i vs ws m'
unfolding fill
fill-Filled m s i [] ws room h = (
  m,
  record {
    returns = refl;
    filled = subst (λ n. HasWords m (s.ptr + 4 * (s.len - n)) ws) (plus_zero i) h;
    kept = λ j out. refl;
  },
)
fill-Filled m s i (v ∷ vs) ws room h =
    let a = s.ptr + 4 * (s.len - suc i) in
    let up : s.ptr + 4 * (s.len - i) ≡ a + 4 = omega (arith, room) in
    let (m', r) = fill-Filled (put m a v) s (suc i) vs (v ∷ ws) (omega (arith, room)) (
      put_self m a v,
      HasWords-put_below m a v (a + 4) ws (omega arith) (subst (λ b. HasWords m b ws) up h),
    ) in
    let e : suc i + length vs ≡ i + suc (length vs) = omega arith in
    (
      m',
      record {
        returns = rw (store_at-ok m s (s.len - suc i) v (omega (arith, room))) r.returns;
        filled = subst (λ n. HasWords m' (s.ptr + 4 * (s.len - n)) (upward vs (v ∷ ws))) e r.filled;
        kept = λ j out.
            r.kept j (below_outside s.ptr s.len i (length vs) j room out).0
            ∙ put_ne m a v j (below_outside s.ptr s.len i (length vs) j room out).1;
      },
    )

-- The registers with which a thread starts.
abbrev pub initial : Slice → Context
initial s = record {
  x4 = 0;
  x5 = 0;
  x6 = 0;
  x7 = 0;
  x8 = 0;
  x9 = 0;
  x10 = 0;
  x11 = 0;
  exc_return = 0xFFFFFFFD;
  psp = s.ptr + 4 * (s.len - 8);
}

-- What the hardware takes from the stack on the return to thread mode: R0 to R3, R12, LR, PC and xPSR.
abbrev pub hardware_words : (exit_lr entry : ℕ) → List ℕ
hardware_words exit_lr entry = 0 ∷ 0 ∷ 0 ∷ 0 ∷ 0 ∷ exit_lr ∷ entry_pc entry ∷ 0x01000000 ∷ []

abbrev pub top_of_frame : Slice → ℕ
top_of_frame s = s.ptr + 4 * (s.len - 17)

from_top : (p n t j : ℕ) → (j < t) ⊎ (p + 4 * n ≤ j) → (j < t) ⊎ (p + 4 * (n - 0) ≤ j)
from_top p n t j (inl lt) = inl lt
from_top p n t j (inr ge) = inr (omega arith)

-- A stack of at least 21 words gets the initial frame, and the words below it are as they were.
pub stack_init_lem :
    (exit_lr : ℕ) (m : ℕ → ℕ) (s : Slice) (entry : ℕ)
    → 21 ≤ s.len
    → (m' : ℕ → ℕ) × (stack_init exit_lr m s entry ≡ ok (top_of_frame s, m'))
      × HasWords m' (top_of_frame s) (words (initial s) ++ hardware_words exit_lr entry)
      × ((j : ℕ) → (j < top_of_frame s) ⊎ (s.ptr + 4 * s.len ≤ j) → m' j ≡ m j)
unfolding stack_init
stack_init_lem exit_lr m s entry room =
    let (m', r) = fill-Filled m s 0 (frame_words exit_lr entry) [] (omega (arith, room)) tt in
    (
      m',
      rw (ltb-false s.len room, r.returns) refl,
      r.filled,
      λ j out. r.kept j (from_top s.ptr s.len (top_of_frame s) j out),
    )

pub stack_init-panic :
    (exit_lr : ℕ) (m : ℕ → ℕ) (s : Slice) (entry : ℕ)
    → s.len < 21
    → stack_init exit_lr m s entry ≡ panic
unfolding stack_init
stack_init-panic exit_lr m s entry short = ground arith

pub canary_check-agree :
    (m m' : ℕ → ℕ) (p : ℕ)
    → ((j : ℕ) → p ≤ j → j < p + 16 → m' j ≡ m j)
    → canary_check m' p ≡ canary_check m p
canary_check-agree m m' p agree =
    rw
      (
        agree p (omega arith) (omega arith),
        agree (p + 4) (omega arith) (omega arith),
        agree (p + 8) (omega arith) (omega arith),
        agree (p + 12) (omega arith) (omega arith),
      )
      refl

canaries : (ℕ → ℕ) → ℕ → ℕ → ℕ
canaries m p =
    put (put (put (put m (p + 4 * 0) canary) (p + 4 * 1) canary) (p + 4 * 2) canary) (p + 4 * 3)
      canary

canaries_lem : (m : ℕ → ℕ) (s : Slice) → 4 ≤ s.len → canary_init m s ≡ ok (canaries m s.ptr)
unfolding canary_init canaries
canaries_lem m s room =
    rw
      (
        store_at-ok m s 0 canary (omega (arith, room)),
        store_at-ok _ s 1 canary (omega (arith, room)),
        store_at-ok _ s 2 canary (omega (arith, room)),
      )
      (store_at-ok _ s 3 canary (omega (arith, room)))

canaries-check : (m : ℕ → ℕ) (p : ℕ) → canary_check (canaries m p) p ≡ true
unfolding canaries put
canaries-check m p = ground arith

canaries-kept : (m : ℕ → ℕ) (p : ℕ) (j : ℕ) → (j < p) ⊎ (p + 16 ≤ j) → canaries m p j ≡ m j
unfolding canaries put
canaries-kept m p j out = ground arith

pub canary_init_lem :
    (m : ℕ → ℕ) (s : Slice)
    → 4 ≤ s.len
    → (m' : ℕ → ℕ) × (canary_init m s ≡ ok m')
      × (canary_check m' s.ptr ≡ true)
      × ((j : ℕ) → (j < s.ptr) ⊎ (s.ptr + 16 ≤ j) → m' j ≡ m j)
unfolding canary_init
canary_init_lem m s room =
    let p = s.ptr in (canaries m p, canaries_lem m s room, canaries-check m p, canaries-kept m p)

pub canary_init-short : (m : ℕ → ℕ) (s : Slice) → s.len < 4 → canary_init m s ≡ panic
unfolding canary_init store_at
canary_init-short m s short = ground arith
