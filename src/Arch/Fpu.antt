-- ===== src/Arch/Fpu.antt =====
-- The stubs that save FPU registers: kangaroos/src/arch/v7em_fpu.rs, and `PendSV` of v8m.rs with FPU.
pub mod Laws
pub mod Drift
use kangaroos.Base.{List, ℕ, [], ◌∷◌, ◌++◌}
use kangaroos.Arch.Cpu.{Reg, r0, r1, lr}
use kangaroos.Arch.Asm.{
  Instr, mrs_psp, mrs_control, msr_psp, tst, vstmdb, vldmia, beq, bne, label, stmdb, ldmia, bl, bx,
  pendsv_save_and_switch,
}
use kangaroos.Arch.V7m.{r4_to_r11_lr}
use kangaroos.Arch.V7m
use kangaroos.Arch.V6m.{save_integers, restore_integers}

-- `{s16-s31}`.
abbrev pub s16_to_s31 : List ℕ
s16_to_s31 = 16 ∷ 17 ∷ 18 ∷ 19 ∷ 20 ∷ 21 ∷ 22 ∷ 23 ∷ 24 ∷ 25 ∷ 26 ∷ 27 ∷ 28 ∷ 29 ∷ 30 ∷ 31 ∷ []

-- Both files begin `PendSV` so.
abbrev pub save_fpu : List Instr
save_fpu = mrs_psp r0 ∷ mrs_control r1 ∷ tst r1 4 ∷ beq 1 ∷ vstmdb r0 s16_to_s31 ∷ label 1 ∷ []

abbrev pub v7em_save : List Instr
v7em_save = save_fpu ++ (stmdb r0 r4_to_r11_lr ∷ [])

abbrev pub v7em_restore : List Instr
v7em_restore =
    ldmia r0 r4_to_r11_lr
    ∷ tst lr 0x10
    ∷ bne 2
    ∷ vldmia r0 s16_to_s31
    ∷ label 2
    ∷ msr_psp r0
    ∷ bx lr
    ∷ []

abbrev pub v7em_pendsv : List Instr
v7em_pendsv = v7em_save ++ (bl pendsv_save_and_switch ∷ v7em_restore)

-- As in v7m.rs.
abbrev pub v7em_svcall : List Instr
v7em_svcall = V7m.svcall

abbrev pub v8m_save : List Instr
v8m_save = save_fpu ++ save_integers

abbrev pub v8m_restore : List Instr
v8m_restore =
    restore_integers
    ++ (tst r1 0x10 ∷ bne 2 ∷ vldmia r0 s16_to_s31 ∷ label 2 ∷ msr_psp r0 ∷ bx r1 ∷ [])

abbrev pub v8m_fpu_pendsv : List Instr
v8m_fpu_pendsv = v8m_save ++ (bl pendsv_save_and_switch ∷ v8m_restore)
