-- ===== src/Arch/Asm.antt =====
-- The Thumb instructions of the stubs in kangaroos/src/arch, as the ARM architecture defines them. Store
-- multiple puts the first register at the lowest address. A forward branch skips up to its label.
use Prim.Native.Nat.{bit_and}
use kangaroos.Base.{
  ℕ, zero, suc, ◌+◌, ◌≡◌, ap, ◌∙◌, ◌++◌, ◌*◌, List, [], ◌∷◌, map, length, ◌==◌, if◌then◌else◌,
}
use kangaroos.Run.{Run, ok, panic, ◌>>=◌, ok-injective, >>=-eq-ok}
use kangaroos.Arch.Cpu.{Reg, Cpu, get, set, add32, sub32, put, store_words}

pub data Callee : Type 0 where
  svc_first_task_sp pendsv_save_and_switch : Callee

pub data Instr : Type 0 where
  mrs_psp mrs_control msr_psp msr_control : Reg → Instr
  movs adds subs tst : Reg → ℕ → Instr
  mov str ldr : Reg → Reg → Instr
  stmdb stmia ldmia : Reg → List Reg → Instr
  vstmdb vldmia : Reg → List ℕ → Instr
  beq bne label : ℕ → Instr
  isb : Instr
  bl : Callee → Instr
  bx : Reg → Instr

abbrev pub load_regs : (a : ℕ) → List Reg → Cpu → Cpu
load_regs a [] c = c
load_regs a (r ∷ rs) c = load_regs (a + 4) rs (set r (c.mem a) c)

abbrev pub load_fpu : (a : ℕ) → List ℕ → Cpu → Cpu
load_fpu a [] c = c
load_fpu a (s ∷ ss) c = load_fpu (a + 4) ss (record c { fpu = put c.fpu s (c.mem a) })

-- The processor, and the state of the called Rust code. A branch seeks its label; 0 is no label.
module _ {S : Type 0} (call : Callee → Cpu × S → Run (Cpu × S)) where
  abbrev pub State : Type 0
  State = Cpu × S

  abbrev done : Cpu → S → Run (ℕ × State)
  done c s = ok (0, (c, s))

  abbrev pub step : Instr → Cpu → S → Run (ℕ × State)
  step (mrs_psp d) c s = done (set d c.psp c) s
  step (mrs_control d) c s = done (set d c.control c) s
  step (msr_psp n) c s = done (record c { psp = get n c }) s
  step (msr_control n) c s = done (record c { control = get n c }) s
  step (movs d i) c s = done (record (set d i c) { zero_flag = i == 0 }) s
  step (adds d i) c s =
      let v = add32 (get d c) i in done (record (set d v c) { zero_flag = v == 0 }) s
  step (subs d i) c s =
      let v = sub32 (get d c) i in done (record (set d v c) { zero_flag = v == 0 }) s
  step (tst n i) c s = done (record c { zero_flag = bit_and (get n c) i == 0 }) s
  step (mov d n) c s = done (set d (get n c) c) s
  step (str t n) c s = done (record c { mem = put c.mem (get n c) (get t c) }) s
  step (ldr t n) c s = done (set t (c.mem (get n c)) c) s
  step (stmdb n rs) c s =
      let a = sub32 (get n c) (4 * length rs) in
      done (set n a (record c { mem = store_words c.mem a (map (λ r. get r c) rs) })) s
  step (stmia n rs) c s =
      let a = get n c in
      done
        (set n (add32 a (4 * length rs))
          (record c { mem = store_words c.mem a (map (λ r. get r c) rs) }))
        s
  step (ldmia n rs) c s =
      let a = get n c in done (set n (add32 a (4 * length rs)) (load_regs a rs c)) s
  step (vstmdb n ss) c s =
      let a = sub32 (get n c) (4 * length ss) in
      done (set n a (record c { mem = store_words c.mem a (map c.fpu ss) })) s
  step (vldmia n ss) c s =
      let a = get n c in done (set n (add32 a (4 * length ss)) (load_fpu a ss c)) s
  step (beq l) c s = ok (if c.zero_flag then l else 0, (c, s))
  step (bne l) c s = ok (if c.zero_flag then 0 else l, (c, s))
  step (label l) c s = done c s
  step isb c s = done c s
  step (bl f) c s = do st ← call f (c, s); ok (0, st)
  step (bx r) c s = done (record c { pc = get r c }) s

  -- An instruction behind a branch that was taken is skipped, but for the label.
  abbrev pub seek : ℕ → Instr → State → Run (ℕ × State)
  seek l (label m) st = ok (if m == l then 0 else l, st)
  seek l i st = ok (l, st)

  abbrev pub next : ℕ → Instr → State → Run (ℕ × State)
  next zero i (c, s) = step i c s
  next (suc l) i (c, s) = seek (suc l) i (c, s)

  -- An assembler refuses a branch to a label that is not there.
  pub exec_from : ℕ → List Instr → State → Run State
  exec_from zero [] st = ok st
  exec_from (suc l) [] st = panic
  exec_from l (i ∷ is) st = do (l', st') ← next l i st; exec_from l' is st'

  unfoldable pub exec : List Instr → State → Run State
  unfolding exec_from
  exec is st = exec_from 0 is st

  exec_from-append :
      (l : ℕ) (is js : List Instr) (st st' : State)
      → exec_from l is st ≡ ok st'
      → exec_from l (is ++ js) st ≡ exec_from 0 js st'
  unfolding exec_from
  exec_from-append zero [] js st st' e = ap (exec_from 0 js) (ok-injective st st' e)
  exec_from-append (suc l) [] js st st' e = cc
  exec_from-append zero (i ∷ is) js st st' e =
      let ((l', st₁), returns, rest) = >>=-eq-ok (next 0 i st) (λ r. exec_from r.0 is r.1) st' e in
      rw returns (exec_from-append l' is js st₁ st' rest)
  exec_from-append (suc l) (i ∷ is) js st st' e =
      let ((l', st₁), returns, rest) =
        >>=-eq-ok (next (suc l) i st) (λ r. exec_from r.0 is r.1) st' e in
      rw returns (exec_from-append l' is js st₁ st' rest)

  -- Code that ends without a fault, then more code.
  pub exec-append :
      (is js : List Instr) (st st' : State) → exec is st ≡ ok st' → exec (is ++ js) st ≡ exec js st'
  unfolding exec
  exec-append is js st st' e = exec_from-append 0 is js st st' e

  -- Code that ends without a fault, then a call, then more code.
  pub exec-call :
      (is js : List Instr) (f : Callee) (st st' st'' : State)
      → exec is st ≡ ok st'
      → call f st' ≡ ok st''
      → exec (is ++ (bl f ∷ js)) st ≡ exec js st''
  unfolding exec
  exec-call is js f st st' st'' e called = exec_from-append 0 is (bl f ∷ js) st st' e ∙ rw called
