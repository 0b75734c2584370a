-- ===== src/Arch/V7m.antt =====
-- The stubs of kangaroos/src/arch/v7m.rs.
pub mod Laws
use kangaroos.Base.{List, [], ◌∷◌, ◌++◌}
use kangaroos.Arch.Cpu.{Reg, r0, r1, r4, r5, r6, r7, r8, r9, r10, r11, lr}
use kangaroos.Arch.Asm.{
  Instr, mrs_psp, msr_psp, msr_control, movs, stmdb, ldmia, isb, bl, bx, svc_first_task_sp,
  pendsv_save_and_switch,
}

-- `{r4-r11, lr}`.
abbrev pub r4_to_r11_lr : List Reg
r4_to_r11_lr = r4 ∷ r5 ∷ r6 ∷ r7 ∷ r8 ∷ r9 ∷ r10 ∷ r11 ∷ lr ∷ []

-- The parts of `PendSV` in front of the call and behind it.
abbrev pub save : List Instr
save = mrs_psp r0 ∷ stmdb r0 r4_to_r11_lr ∷ []

abbrev pub restore : List Instr
restore = ldmia r0 r4_to_r11_lr ∷ msr_psp r0 ∷ bx lr ∷ []

abbrev pub pendsv : List Instr
pendsv = save ++ (bl pendsv_save_and_switch ∷ restore)

-- `SVCall` behind its call.
abbrev pub start : List Instr
start =
    msr_psp r0 ∷ movs r1 2 ∷ msr_control r1 ∷ isb ∷ ldmia r0 r4_to_r11_lr ∷ msr_psp r0 ∷ bx lr ∷ []

abbrev pub svcall : List Instr
svcall = bl svc_first_task_sp ∷ start
