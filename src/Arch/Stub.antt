-- ===== src/Arch/Stub.antt =====
-- What a `PendSV` stub promises: it saves the registers that the hardware does not save in a frame of nine
-- words, and takes them from such a frame.
use Prim.Native.Nat.{bit_and}
use kangaroos.Base.{◌≢◌, ℕ, ◌+◌, ◌-◌, ◌^◌, ◌≡◌, ◌≤◌, ◌<◌, List, [], ◌∷◌}
use kangaroos.Run.{Run, ok}
use kangaroos.Kernel.{Kernel}
use kangaroos.Arch.Cpu.{Cpu, store_words, HasWords}
use kangaroos.Arch.Asm.{Callee, Instr, exec}

-- The registers of a thread that its stub saves, and its stack pointer.
pub record Context : Type 0 where
  pub x4 : ℕ
  pub x5 : ℕ
  pub x6 : ℕ
  pub x7 : ℕ
  pub x8 : ℕ
  pub x9 : ℕ
  pub x10 : ℕ
  pub x11 : ℕ
  pub exc_return : ℕ
  pub psp : ℕ

abbrev pub words : Context → List ℕ
words x = x.x4 ∷ x.x5 ∷ x.x6 ∷ x.x7 ∷ x.x8 ∷ x.x9 ∷ x.x10 ∷ x.x11 ∷ x.exc_return ∷ []

abbrev context_with : ℕ → Cpu → Context
context_with exc c = record {
  x4 = c.v4;
  x5 = c.v5;
  x6 = c.v6;
  x7 = c.v7;
  x8 = c.v8;
  x9 = c.v9;
  x10 = c.v10;
  x11 = c.v11;
  exc_return = exc;
  psp = c.psp;
}

-- The thread at the entry of a handler, which finds EXC_RETURN in LR.
abbrev pub entered : Cpu → Context
entered c = context_with c.link c

-- The thread to which a handler returns by a branch to EXC_RETURN.
abbrev pub left : Cpu → Context
left c = context_with c.pc c

-- The thread has not used the FPU: EXC_RETURN stands for a standard frame of the hardware.
abbrev pub Standard : Context → Type 0
Standard x = bit_and x.exc_return 0x10 ≢ 0

-- On a handler's entry the hardware clears CONTROL.FPCA, bit 2.
abbrev pub NoFpca : Cpu → Type 0
NoFpca c = bit_and c.control 4 ≡ 0

abbrev pub Saves : List Instr → Type 0
Saves save =
    (call : Callee → Cpu × Kernel → Run (Cpu × Kernel)) (c : Cpu) (k : Kernel)
    → 36 ≤ c.psp
    → c.psp < 2 ^ 32
    → NoFpca c
    → (c' : Cpu) × (exec call save (c, k) ≡ ok (c', k))
      × (c'.v0 ≡ c.psp - 36)
      × (c'.mem ≡ store_words c.mem (c.psp - 36) (words (entered c)))
      × (c'.psplim ≡ c.psplim)

abbrev pub Restores : List Instr → Type 0
Restores restore =
    (call : Callee → Cpu × Kernel → Run (Cpu × Kernel)) (c : Cpu) (k : Kernel) (x : Context)
    → c.v0 + 36 ≡ x.psp
    → x.psp < 2 ^ 32
    → Standard x
    → HasWords c.mem c.v0 (words x)
    → (c' : Cpu) × (exec call restore (c, k) ≡ ok (c', k))
      × (left c' ≡ x)
      × (c'.mem ≡ c.mem)
      × (c'.psplim ≡ c.psplim)

-- The part of `SVCall` behind its call restores a thread, and thread mode uses PSP from then on.
abbrev pub Starts : List Instr → Type 0
Starts start =
    (call : Callee → Cpu × Kernel → Run (Cpu × Kernel)) (c : Cpu) (k : Kernel) (x : Context)
    → c.v0 + 36 ≡ x.psp
    → x.psp < 2 ^ 32
    → HasWords c.mem c.v0 (words x)
    → (c' : Cpu) × (exec call start (c, k) ≡ ok (c', k))
      × (left c' ≡ x)
      × (c'.mem ≡ c.mem)
      × (c'.control ≡ 2)
      × (c'.psplim ≡ c.psplim)

pub record Stub : Type 0 where
  pub save : List Instr
  pub restore : List Instr
  pub start : List Instr
  pub saves : Saves save
  pub restores : Restores restore
  pub starts : Starts start
