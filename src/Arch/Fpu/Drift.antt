-- ===== src/Arch/Fpu/Drift.antt =====
-- The stubs with FPU around a thread that has used it: they test CONTROL.FPCA, which the hardware clears on
-- the entry of the handler, for the save, and EXC_RETURN for the restore.
use Prim.Native.Nat.{bit_and}
use kangaroos.Base.{
  ℕ, ◌+◌, ◌-◌, ◌^◌, ◌≡◌, ◌≤◌, ◌<◌, refl, sym, ap, ◌∙◌, true, List, [], ◌∷◌, ◌++◌, arith, ◌≢◌, ◌∈◌,
  has, length, inl, inr, Bool-cases, ◌==◌, eq_of_==, ne_of_==, if◌then◌else◌,
}
use kangaroos.Run.{Run, ok}
use kangaroos.Kernel.{Kernel}
use kangaroos.Scheduler.{eligible, pendsv_save_and_switch}
use kangaroos.Scheduler.Invariant.{IsScheduled, rotation, has-rotation}
use kangaroos.Scheduler.FindNext.{fit}
use kangaroos.Pick.{Picks-le}
use kangaroos.WaitList.Pop.{prio}
use kangaroos.Scheduler.Switch.{Switched, switch_lem}
use kangaroos.Arch.Threads.{returned, rust_call}
use kangaroos.Arch.Cpu.{Cpu, Reg, r0, lr, get, set, add32, HasWords}
use kangaroos.Arch.Asm.{
  Callee, Instr, exec, exec-append, exec-call, load_fpu, ldmia, tst, bne, vldmia, label, msr_psp,
  bx,
}
use kangaroos.Arch.Asm
use kangaroos.Arch.Words.{store_words-HasWords}
use kangaroos.Arch.Stub.{Context, words, entered, NoFpca}
use kangaroos.Arch.V7m.{r4_to_r11_lr}
use kangaroos.Arch.Fpu.{s16_to_s31, v7em_save, v7em_restore, v7em_pendsv}
use kangaroos.Arch.Fpu.Laws.{v7em_save-Saves}

module _ (call : Callee → Cpu × Kernel → Run (Cpu × Kernel)) (k : Kernel) where
  popped : Cpu → Cpu
  popped c = set r0 (add32 c.v0 64) (load_fpu c.v0 s16_to_s31 (record c { zero_flag = true }))

  -- The restore takes the FPU registers from the stack.
  restore_fpu-pops :
      (n : Reg) (js : List Instr) (c : Cpu)
      → bit_and (get n c) 0x10 ≡ 0
      → exec call (tst n 0x10 ∷ bne 2 ∷ vldmia r0 s16_to_s31 ∷ label 2 ∷ js) (c, k)
        ≡ exec call js (popped c, k)
  unfolding exec popped
  restore_fpu-pops n js c used = rw used refl

  pops_behind :
      (n : Reg) (is js : List Instr) (c c₁ : Cpu)
      → exec call is (c, k) ≡ ok (c₁, k)
      → bit_and (get n c₁) 0x10 ≡ 0
      → exec call (is ++ (tst n 0x10 ∷ bne 2 ∷ vldmia r0 s16_to_s31 ∷ label 2 ∷ js)) (c, k)
        ≡ exec call js (popped c₁, k)
  pops_behind n is js c c₁ ran used =
      exec-append call is (tst n 0x10 ∷ bne 2 ∷ vldmia r0 s16_to_s31 ∷ label 2 ∷ js) (c, k) (c₁, k)
        ran
      ∙ restore_fpu-pops n js c₁ used

  drift : (a p : ℕ) → a + 36 ≡ p → p + 64 < 2 ^ 32 → add32 (add32 a 36) 64 ≡ p + 64
  drift a p at small = omega arith

  restore-drifts :
      (c : Cpu) (x : Context)
      → c.v0 + 36 ≡ x.psp
      → x.psp + 64 < 2 ^ 32
      → bit_and x.exc_return 0x10 ≡ 0
      → HasWords c.mem c.v0 (words x)
      → (c' : Cpu) × (exec call v7em_restore (c, k) ≡ ok (c', k)) × (c'.psp ≡ x.psp + 64)
  unfolding exec popped
  restore-drifts c x at small used h =
      let exc : c.mem (c.v0 + 4 + 4 + 4 + 4 + 4 + 4 + 4 + 4) ≡ x.exc_return = cc in
      (
        _,
        pops_behind lr (ldmia r0 r4_to_r11_lr ∷ []) (msr_psp r0 ∷ bx lr ∷ []) c _ refl
            (ap (λ i. bit_and i 0x10) exc ∙ used),
        drift c.v0 x.psp at small,
      )

-- `PendSV` with the scheduler behind its call, around a thread of a higher priority than all others that can run.
module _ (f : ℕ) (scratch : ℕ → Cpu → Kernel → ℕ) (limit : ℕ → Kernel → ℕ) (k : Kernel)
    (xs : List ℕ) (c : Cpu) (s : IsScheduled k xs) (fuel : length xs < f)
    (can : eligible (k.tasks k.current).state ≡ true)
    (first_of : (a : ℕ)
      → a ∈ xs
      → a ≢ k.current
      → eligible (k.tasks a).state ≡ true
      → prio k.tasks k.current < prio k.tasks a) where
  stays : (sp b : ℕ) (g : Kernel) → b ∈ xs → Switched sp k xs b g → b ≡ k.current
  stays sp b g m d = elim (Bool-cases (b == k.current)) [
    | inl e ↦ eq_of_== b k.current e
    | inr n ↦
        let lt = first_of b m (ne_of_== b k.current n) d.picked.fits in
        let le =
          Picks-le (fit k.tasks) (prio k.tasks) (rotation k.current xs) b k.current d.picked
            (has-rotation k.current k.current xs s.known ∙ s.known) can in
        absurd (omega (arith, lt, le))
  ]

  on_current : (c v w : ℕ) → (if c == c then v else w) ≡ v
  on_current c v w = ground arith

  -- The scheduler picks the thread again, with the stack pointer that it was given.
  same_sp :
      (sp b : ℕ) (g : Kernel)
      → b ∈ xs
      → Switched sp k xs b g
      → ((g.tasks b).sp ≡ sp) × (g.current ≡ k.current)
  same_sp sp b g m d =
      let e = stays sp b g m d in
      (
        ap (λ a. (g.tasks a).sp) e
            ∙ d.stacks k.current
            ∙ on_current k.current sp (k.tasks k.current).sp,
        d.current ∙ e,
      )

  at_top : (p v : ℕ) → 36 ≤ p → v ≡ p - 36 → v + 36 ≡ p
  at_top p v room e = omega arith

  called :
      (c₁ : Cpu) (sp : ℕ) (g : Kernel)
      → c₁.v0 ≡ c.psp - 36
      → pendsv_save_and_switch f (c.psp - 36) k ≡ ok (sp, g)
      → rust_call f scratch limit Asm.pendsv_save_and_switch (c₁, k)
        ≡ ok (returned f scratch limit sp g c₁, g)
  unfolding rust_call
  called c₁ sp g e returns = rw (e, returns) refl

  -- A thread that has used the FPU, so that bit 4 of its EXC_RETURN is clear, does not get its stack pointer
  -- back if `PendSV` is taken while every other task that can run has a lower priority: the scheduler picks it
  -- again, and its stack pointer is 64 bytes too high.
  pub v7em_pendsv-drifts :
      36 ≤ c.psp
      → c.psp + 64 < 2 ^ 32
      → NoFpca c
      → bit_and c.link 0x10 ≡ 0
      → (c' : Cpu) × (g : Kernel) × (exec (rust_call f scratch limit) v7em_pendsv (c, k)
          ≡ ok (c', g))
        × (g.current ≡ k.current)
        × (c'.psp ≡ c.psp + 64)
  v7em_pendsv-drifts room small no_fpca used =
      let call = rust_call f scratch limit in
      let (c₁, saved, at, mem, _) = v7em_save-Saves call c k room (omega (arith, small)) no_fpca in
      let (b, g, returns, d, again) = switch_lem f (c.psp - 36) k xs s fuel k.current s.known can in
      let m : b ∈ xs = ap (λ a. has a xs) (sym d.current) ∙ again.known in
      let (sp_kept, kept) = same_sp (c.psp - 36) b g m d in
      let sp = (g.tasks b).sp in
      let (c', ran, high) =
        restore-drifts call g (returned f scratch limit sp g c₁) (entered c)
          (at_top c.psp sp room sp_kept) small used
          (rw (mem, sp_kept) (store_words-HasWords c.mem (c.psp - 36) (words (entered c)))) in
      (
        c',
        g,
        exec-call call v7em_save v7em_restore Asm.pendsv_save_and_switch (c, k) (c₁, k) _ saved
              (called c₁ sp g at returns)
            ∙ ran,
        kept,
        high,
      )
