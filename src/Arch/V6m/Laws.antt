-- ===== src/Arch/V6m/Laws.antt =====
-- The stub of v6m.rs, which has no instruction for a store of high registers, keeps the promise of `Stub`.
use kangaroos.Base.{ℕ, ◌+◌, ◌-◌, ◌^◌, ◌≡◌, ◌≤◌, ◌<◌, refl, ap, ◌∙◌, [], ◌∷◌, arith}
use kangaroos.Arch.Cpu.{sub32, add32, put, store_words, HasWords}
use kangaroos.Arch.Asm.{exec}
use kangaroos.Arch.Stub.{Context, words, entered, Saves, Restores, Starts, Stub}
use kangaroos.Arch.V6m.{save, restore, start}

-- Three stores for a frame.
pub frame_in_parts :
    (m : ℕ → ℕ) (a b d x4 x5 x6 x7 x8 x9 x10 x11 e : ℕ)
    → b ≡ a + 16
    → d ≡ b + 16
    → put (store_words (store_words m a (x4 ∷ x5 ∷ x6 ∷ x7 ∷ [])) b (x8 ∷ x9 ∷ x10 ∷ x11 ∷ [])) d e
      ≡ store_words m a (x4 ∷ x5 ∷ x6 ∷ x7 ∷ x8 ∷ x9 ∷ x10 ∷ x11 ∷ e ∷ [])
unfolding store_words
frame_in_parts m a b d x4 x5 x6 x7 x8 x9 x10 x11 e eb ed =
    let e₁ : b ≡ a + 4 + 4 + 4 + 4 = omega arith in
    let e₂ : d ≡ a + 4 + 4 + 4 + 4 + 4 + 4 + 4 + 4 = omega arith in rw (e₂, e₁)

-- Where the parts go.
pub save_addresses :
    (p : ℕ)
    → 36 ≤ p
    → p < 2 ^ 32
    → (sub32 (add32 (sub32 (add32 (add32 (sub32 p 36) 16) 16) 32) 16) 16 ≡ p - 36)
      × (add32 (sub32 p 36) 16 ≡ sub32 p 36 + 16)
      × (add32 (add32 (sub32 p 36) 16) 16 ≡ add32 (sub32 p 36) 16 + 16)
      × (sub32 p 36 ≡ p - 36)
save_addresses p room small = omega arith

pub save-Saves : Saves save
unfolding exec
save-Saves call c k room small no_fpca =
    let (e₀, e₁, e₂, e₃) = save_addresses c.psp room small in
    (
      _,
      refl,
      e₀,
      frame_in_parts c.mem _ _ _ _ _ _ _ _ _ _ _ c.link e₁ e₂
          ∙ ap (λ a. store_words c.mem a (words (entered c))) e₃,
      refl,
    )

-- Where the parts of a frame are taken from.
pub frame_addresses :
    (a p : ℕ)
    → a + 36 ≡ p
    → p < 2 ^ 32
    → (add32 a 16 ≡ a + 4 + 4 + 4 + 4)
      × (add32 (add32 a 16) 8 ≡ a + 4 + 4 + 4 + 4 + 4 + 4)
      × (add32 (add32 (add32 a 16) 8) 8 ≡ a + 4 + 4 + 4 + 4 + 4 + 4 + 4 + 4)
      × (add32 (add32 (add32 (add32 a 16) 8) 8) 4 ≡ p)
frame_addresses a p at small = omega arith

pub frame_in_parts-Context :
    (m : ℕ → ℕ) (a b d e p : ℕ) (x : Context)
    → b ≡ a + 4 + 4 + 4 + 4
    → d ≡ a + 4 + 4 + 4 + 4 + 4 + 4
    → e ≡ a + 4 + 4 + 4 + 4 + 4 + 4 + 4 + 4
    → p ≡ x.psp
    → HasWords m a (words x)
    → record {
      x4 = m a;
      x5 = m (a + 4);
      x6 = m (a + 4 + 4);
      x7 = m (a + 4 + 4 + 4);
      x8 = m b;
      x9 = m (b + 4);
      x10 = m d;
      x11 = m (d + 4);
      exc_return = m e;
      psp = p;
    }
      ≡ x
frame_in_parts-Context m a b d e p x eb ed ee ep h = rw (eb, ed, ee) (cc)

pub restore-Restores : Restores restore
unfolding exec
restore-Restores call c k x at small standard h =
    let (e₁, e₂, e₃, e₄) = frame_addresses c.v0 x.psp at small in
    (_, refl, frame_in_parts-Context c.mem c.v0 _ _ _ _ x e₁ e₂ e₃ e₄ h, refl, refl)

pub start-Starts : Starts start
unfolding exec
start-Starts call c k x at small h =
    let (e₁, e₂, e₃, e₄) = frame_addresses c.v0 x.psp at small in
    (_, refl, frame_in_parts-Context c.mem c.v0 _ _ _ _ x e₁ e₂ e₃ e₄ h, refl, refl, refl)

unfoldable pub v6m : Stub
v6m = record {
  save = save;
  restore = restore;
  start = start;
  saves = save-Saves;
  restores = restore-Restores;
  starts = start-Starts;
}
