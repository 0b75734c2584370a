-- ===== src/Arch/Fpu/Laws.antt =====
-- The stubs with FPU keep the promise of `Stub` for threads that have not used the FPU.
use Prim.Native.Nat.{bit_and}
use kangaroos.Base.{
  ◌+◌, ◌-◌, ◌≡◌, ◌≢◌, refl, sym, ap, ◌∙◌, true, false, List, [], ◌∷◌, ◌++◌, ==-false_of_ne, arith,
}
use kangaroos.Run.{Run, ok}
use kangaroos.Kernel.{Kernel}
use kangaroos.Arch.Cpu.{Cpu, Reg, r0, r1, lr, get, sub32, add32, store_words}
use kangaroos.Arch.Asm.{
  Callee, Instr, exec, exec-append, stmdb, ldmia, msr_psp, bx, tst, bne, vldmia, label,
}
use kangaroos.Arch.Stub.{words, entered, NoFpca, Saves, Restores, Stub}
use kangaroos.Arch.Fpu.{s16_to_s31, save_fpu, v7em_save, v7em_restore, v8m_save, v8m_restore}
use kangaroos.Arch.V7m.{r4_to_r11_lr}
use kangaroos.Arch.V7m.Laws.{v7m}
use kangaroos.Arch.V6m.{save_integers, restore_integers}
use kangaroos.Arch.V6m.Laws.{
  v6m, frame_in_parts, save_addresses, frame_addresses, frame_in_parts-Context,
}

module _ (call : Callee → Cpu × Kernel → Run (Cpu × Kernel)) (c : Cpu) (k : Kernel) where
  -- The save jumps over the FPU registers.
  save_fpu-exec :
      (js : List Instr)
      → NoFpca c
      → exec call (save_fpu ++ js) (c, k)
        ≡ exec call js (record c { v0 = c.psp; v1 = c.control; zero_flag = true }, k)
  unfolding exec
  save_fpu-exec js no_fpca = rw no_fpca refl

  -- The restore jumps over the FPU registers.
  restore_fpu-exec :
      (n : Reg) (js : List Instr)
      → bit_and (get n c) 0x10 ≢ 0
      → exec call (tst n 0x10 ∷ bne 2 ∷ vldmia r0 s16_to_s31 ∷ label 2 ∷ js) (c, k)
        ≡ exec call js (record c { zero_flag = false }, k)
  unfolding exec
  restore_fpu-exec n js standard = rw (==-false_of_ne (bit_and (get n c) 0x10) 0 standard) refl

-- The same behind other code.
restore_fpu-behind :
    (call : Callee → Cpu × Kernel → Run (Cpu × Kernel)) (k : Kernel) (n : Reg) (is js : List Instr)
    (c c₁ : Cpu)
    → exec call is (c, k) ≡ ok (c₁, k)
    → bit_and (get n c₁) 0x10 ≢ 0
    → exec call (is ++ (tst n 0x10 ∷ bne 2 ∷ vldmia r0 s16_to_s31 ∷ label 2 ∷ js)) (c, k)
      ≡ exec call js (record c₁ { zero_flag = false }, k)
restore_fpu-behind call k n is js c c₁ ran standard =
    exec-append call is (tst n 0x10 ∷ bne 2 ∷ vldmia r0 s16_to_s31 ∷ label 2 ∷ js) (c, k) (c₁, k)
      ran
    ∙ restore_fpu-exec call c₁ k n js standard

pub v7em_save-Saves : Saves v7em_save
unfolding exec
v7em_save-Saves call c k room small no_fpca =
    let e : sub32 c.psp 36 ≡ c.psp - 36 = omega arith in
    (
      _,
      save_fpu-exec call c k (stmdb r0 r4_to_r11_lr ∷ []) no_fpca,
      e,
      ap (λ a. store_words c.mem a (words (entered c))) e,
      refl,
    )

pub v7em_restore-Restores : Restores v7em_restore
unfolding exec
v7em_restore-Restores call c k x at small standard h =
    let e : add32 c.v0 36 ≡ x.psp = omega arith in
    let exc : c.mem (c.v0 + 4 + 4 + 4 + 4 + 4 + 4 + 4 + 4) ≡ x.exc_return = cc in
    (
      _,
      restore_fpu-behind call k lr (ldmia r0 r4_to_r11_lr ∷ []) (msr_psp r0 ∷ bx lr ∷ []) c _ refl
          (λ z. standard (ap (λ i. bit_and i 0x10) (sym exc) ∙ z)),
      cc,
      refl,
      refl,
    )

unfoldable pub v7em : Stub
v7em = record {
  save = v7em_save;
  restore = v7em_restore;
  start = v7m.start;
  saves = v7em_save-Saves;
  restores = v7em_restore-Restores;
  starts = v7m.starts;
}

pub v8m_save-Saves : Saves v8m_save
unfolding exec
v8m_save-Saves call c k room small no_fpca =
    let (e₀, e₁, e₂, e₃) = save_addresses c.psp room small in
    (
      _,
      save_fpu-exec call c k save_integers no_fpca,
      e₀,
      frame_in_parts c.mem _ _ _ _ _ _ _ _ _ _ _ c.link e₁ e₂
          ∙ ap (λ a. store_words c.mem a (words (entered c))) e₃,
      refl,
    )

pub v8m_restore-Restores : Restores v8m_restore
unfolding exec
v8m_restore-Restores call c k x at small standard h =
    let (e₁, e₂, e₃, e₄) = frame_addresses c.v0 x.psp at small in
    let same = frame_in_parts-Context c.mem c.v0 _ _ _ _ x e₁ e₂ e₃ e₄ h in
    (
      _,
      restore_fpu-behind call k r1 restore_integers (msr_psp r0 ∷ bx r1 ∷ []) c _ refl
          (λ z. standard (ap (λ y. bit_and y.exc_return 0x10) (sym same) ∙ z)),
      same,
      refl,
      refl,
    )

unfoldable pub v8m : Stub
v8m = record {
  save = v8m_save;
  restore = v8m_restore;
  start = v6m.start;
  saves = v8m_save-Saves;
  restores = v8m_restore-Restores;
  starts = v6m.starts;
}
