-- ===== src/Arch/Cpu.antt =====
-- The part of a Cortex-M that the exception stubs of kangaroos/src/arch use: the registers of the handler,
-- PSP, PSPLIM, CONTROL, the Z flag, the callee-saved registers S16 to S31 of the FPU, and memory as words
-- at byte addresses. Addresses are 32 bits wide.
use kangaroos.Base.{ℕ, ◌+◌, ◌-◌, ◌%◌, ◌^◌, ◌≡◌, Bool, List, [], ◌∷◌, ◌==◌, if◌then◌else◌}

pub data Reg : Type 0 where
  r0 r1 r2 r3 r4 r5 r6 r7 r8 r9 r10 r11 r12 lr : Reg

pub record Cpu : Type 0 where
  pub v0 : ℕ
  pub v1 : ℕ
  pub v2 : ℕ
  pub v3 : ℕ
  pub v4 : ℕ
  pub v5 : ℕ
  pub v6 : ℕ
  pub v7 : ℕ
  pub v8 : ℕ
  pub v9 : ℕ
  pub v10 : ℕ
  pub v11 : ℕ
  pub v12 : ℕ
  pub link : ℕ
  pub pc : ℕ
  pub psp : ℕ
  pub psplim : ℕ
  pub control : ℕ
  pub zero_flag : Bool
  pub fpu : ℕ → ℕ
  pub mem : ℕ → ℕ

abbrev pub get : Reg → Cpu → ℕ
get r0 c = c.v0
get r1 c = c.v1
get r2 c = c.v2
get r3 c = c.v3
get r4 c = c.v4
get r5 c = c.v5
get r6 c = c.v6
get r7 c = c.v7
get r8 c = c.v8
get r9 c = c.v9
get r10 c = c.v10
get r11 c = c.v11
get r12 c = c.v12
get lr c = c.link

abbrev pub set : Reg → ℕ → Cpu → Cpu
set r0 v c = record c { v0 = v }
set r1 v c = record c { v1 = v }
set r2 v c = record c { v2 = v }
set r3 v c = record c { v3 = v }
set r4 v c = record c { v4 = v }
set r5 v c = record c { v5 = v }
set r6 v c = record c { v6 = v }
set r7 v c = record c { v7 = v }
set r8 v c = record c { v8 = v }
set r9 v c = record c { v9 = v }
set r10 v c = record c { v10 = v }
set r11 v c = record c { v11 = v }
set r12 v c = record c { v12 = v }
set lr v c = record c { link = v }

abbrev pub add32 : ℕ → ℕ → ℕ
add32 a b = (a + b) % 2 ^ 32

-- `-` on ℕ stops at 0, so the modulus is added first.
abbrev pub sub32 : ℕ → ℕ → ℕ
sub32 a b = (a + 2 ^ 32 - b) % 2 ^ 32

unfoldable pub put : (ℕ → ℕ) → ℕ → ℕ → ℕ → ℕ
put m i v j = if j == i then v else m j

-- Consecutive words from the address `a` on.
unfoldable pub store_words : (ℕ → ℕ) → (a : ℕ) → List ℕ → ℕ → ℕ
unfolding put
store_words m a [] = m
store_words m a (v ∷ vs) = store_words (put m a v) (a + 4) vs

-- The memory has these words from the address `a` on.
abbrev pub HasWords : (ℕ → ℕ) → (a : ℕ) → List ℕ → Type 0
HasWords m a [] = Unit {0}
HasWords m a (v ∷ vs) = (m a ≡ v) × HasWords m (a + 4) vs
