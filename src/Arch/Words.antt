-- ===== src/Arch/Words.antt =====
-- Consecutive words: what is stored is read again, and nothing else changes.
use kangaroos.Base.{
  ℕ, ◌+◌, ◌*◌, ◌≡◌, ◌≤◌, ◌<◌, ◌⊎◌, inl, refl, ap, subst, ◌∙◌, List, [], ◌∷◌, ◌++◌, length, arith,
}
use kangaroos.Arch.Cpu.{put, store_words, HasWords}

-- The address is none of `n` consecutive words from `a` on.
abbrev pub Outside : (i a n : ℕ) → Type 0
Outside i a n = (i < a) ⊎ (a + 4 * n ≤ i)

pub store_words_elsewhere :
    (m : ℕ → ℕ) (a : ℕ) (vs : List ℕ) (i : ℕ) → Outside i a (length vs) → store_words m a vs i ≡ m i
unfolding store_words put
store_words_elsewhere m a [] i o = refl
store_words_elsewhere m a (v ∷ vs) i o =
    store_words_elsewhere (put m a v) (a + 4) vs i (ground arith) ∙ ground arith

pub store_words-HasWords : (m : ℕ → ℕ) (a : ℕ) (vs : List ℕ) → HasWords (store_words m a vs) a vs
unfolding store_words put
store_words-HasWords m a [] = tt
store_words-HasWords m a (v ∷ vs) = (
  store_words_elsewhere (put m a v) (a + 4) vs a (inl (omega arith)) ∙ ground arith,
  store_words-HasWords (put m a v) (a + 4) vs,
)

-- Words that are apart from those stored are kept.
pub HasWords-store_words :
    (m : ℕ → ℕ) (a : ℕ) (vs : List ℕ) (b : ℕ) (ws : List ℕ)
    → (b + 4 * length ws ≤ a) ⊎ (a + 4 * length vs ≤ b)
    → HasWords m b ws
    → HasWords (store_words m a vs) b ws
HasWords-store_words m a vs b [] o h = tt
HasWords-store_words m a vs b (w ∷ ws) o h = (
  store_words_elsewhere m a vs b (ground arith) ∙ h.0,
  HasWords-store_words m a vs (b + 4) ws (ground arith) h.1,
)

pub store_words-append :
    (m : ℕ → ℕ) (a : ℕ) (vs ws : List ℕ)
    → store_words (store_words m a vs) (a + 4 * length vs) ws ≡ store_words m a (vs ++ ws)
unfolding store_words
store_words-append m a [] ws = ap (λ b. store_words m b ws) (omega arith)
store_words-append m a (v ∷ vs) ws =
    ap (λ b. store_words (store_words (put m a v) (a + 4) vs) b ws) (omega arith)
    ∙ store_words-append (put m a v) (a + 4) vs ws

-- Memories that agree there.
pub HasWords-agree :
    (m m' : ℕ → ℕ) (a : ℕ) (ws : List ℕ)
    → ((i : ℕ) → a ≤ i → i < a + 4 * length ws → m' i ≡ m i)
    → HasWords m a ws
    → HasWords m' a ws
HasWords-agree m m' a [] agree h = tt
HasWords-agree m m' a (w ∷ ws) agree h = (
  agree a (omega arith) (omega arith) ∙ h.0,
  HasWords-agree m m' (a + 4) ws (λ i ge lt. agree i (omega (arith, ge)) (omega (arith, lt))) h.1,
)

pub HasWords-split :
    (m : ℕ → ℕ) (a : ℕ) (vs ws : List ℕ)
    → HasWords m a (vs ++ ws)
    → HasWords m a vs × HasWords m (a + 4 * length vs) ws
HasWords-split m a [] ws h = (tt, subst (λ b. HasWords m b ws) (omega arith) h)
HasWords-split m a (v ∷ vs) ws h =
    let (front, back) = HasWords-split m (a + 4) vs ws h.1 in
    ((h.0, front), subst (λ b. HasWords m b ws) (omega arith) back)
