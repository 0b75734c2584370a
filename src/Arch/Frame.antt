-- ===== src/Arch/Frame.antt =====
-- `stack_init`, `canary_init` and `canary_check` of kangaroos/src/arch. All ports fill the frame alike but
-- for the word for LR, which is a parameter: 0xDEAD_0001 on the host, `task_exit` elsewhere.
pub mod Laws
use Prim.Native.Nat.{bit_and, bit_or}
use kangaroos.Base.{ℕ, suc, ◌+◌, ◌-◌, ◌*◌, Bool, ◌&&◌, List, [], ◌∷◌, ◌==◌, ltb, if◌then◌else◌}
use kangaroos.Run.{Run, ok, panic, ◌>>=◌}
use kangaroos.Arch.Cpu.{put}

-- `&mut [u32]`: where it starts, and how many words it has.
pub record Slice : Type 0 where
  pub ptr : ℕ
  pub len : ℕ

-- `stack[i] = v`, which panics out of bounds.
unfoldable pub store_at : (ℕ → ℕ) → Slice → ℕ → ℕ → Run (ℕ → ℕ)
unfolding put
store_at m s i v = if ltb i s.len then ok (put m (s.ptr + 4 * i) v) else panic

abbrev pub canary : ℕ
canary = 0xDEADBEEF

unfoldable pub canary_init : (ℕ → ℕ) → Slice → Run (ℕ → ℕ)
canary_init m s = do
  m₀ ← store_at m s 0 canary
  m₁ ← store_at m₀ s 1 canary
  m₂ ← store_at m₁ s 2 canary
  store_at m₂ s 3 canary

abbrev pub canary_check : (ℕ → ℕ) → (stack_base : ℕ) → Bool
canary_check m p =
    (m p == canary) && ((m (p + 4) == canary) && ((m (p + 8) == canary) && (m (p + 12) == canary)))

-- `stack[n - i - 1] = v` for the words in turn, from the top down.
unfoldable pub fill : (ℕ → ℕ) → Slice → (i : ℕ) → List ℕ → Run (ℕ → ℕ)
fill m s i [] = ok m
fill m s i (v ∷ vs) = do m' ← store_at m s (s.len - suc i) v; fill m' s (suc i) vs

-- `entry as usize as u32 & !1`.
abbrev pub entry_pc : ℕ → ℕ
entry_pc entry = bit_and entry 0xFFFFFFFE

-- xPSR, PC, LR, R12 and R3 to R0; then EXC_RETURN and R11 to R4.
abbrev pub frame_words : (exit_lr entry : ℕ) → List ℕ
frame_words exit_lr entry =
    0x01000000
    ∷ entry_pc entry
    ∷ exit_lr
    ∷ 0
    ∷ 0
    ∷ 0
    ∷ 0
    ∷ 0
    ∷ 0xFFFFFFFD
    ∷ 0
    ∷ 0
    ∷ 0
    ∷ 0
    ∷ 0
    ∷ 0
    ∷ 0
    ∷ 0
    ∷ []

-- The address of the lowest word of the frame, and the memory.
unfoldable pub stack_init : (exit_lr : ℕ) → (ℕ → ℕ) → Slice → (entry : ℕ) → Run (ℕ × (ℕ → ℕ))
stack_init exit_lr m s entry =
    if ltb s.len 21
    then panic
    else do m' ← fill m s 0 (frame_words exit_lr entry); ok (s.ptr + 4 * (s.len - 17), m')

-- The ports: LR is `task_exit | 1`.
abbrev pub v6m_stack_init : (task_exit : ℕ) → (ℕ → ℕ) → Slice → (entry : ℕ) → Run (ℕ × (ℕ → ℕ))
v6m_stack_init task_exit m s entry = stack_init (bit_or task_exit 1) m s entry

abbrev pub v7m_stack_init : (task_exit : ℕ) → (ℕ → ℕ) → Slice → (entry : ℕ) → Run (ℕ × (ℕ → ℕ))
v7m_stack_init task_exit m s entry = stack_init (bit_or task_exit 1) m s entry

abbrev pub v7em_stack_init : (task_exit : ℕ) → (ℕ → ℕ) → Slice → (entry : ℕ) → Run (ℕ × (ℕ → ℕ))
v7em_stack_init task_exit m s entry = stack_init (bit_or task_exit 1) m s entry

abbrev pub v8m_stack_init : (task_exit : ℕ) → (ℕ → ℕ) → Slice → (entry : ℕ) → Run (ℕ × (ℕ → ℕ))
v8m_stack_init task_exit m s entry = stack_init (bit_or task_exit 1) m s entry
