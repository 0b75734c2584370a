-- ===== src/Arch/V6m.antt =====
-- The stubs of kangaroos/src/arch/v6m.rs, and of v8m.rs without FPU, which have the same instructions.
pub mod Laws
use kangaroos.Base.{List, [], ◌∷◌, ◌++◌}
use kangaroos.Arch.Cpu.{Reg, r0, r1, r2, r4, r5, r6, r7, r8, r9, r10, r11, lr}
use kangaroos.Arch.Asm.{
  Instr, mrs_psp, msr_psp, msr_control, movs, adds, subs, mov, str, ldr, stmia, ldmia, isb, bl, bx,
  svc_first_task_sp, pendsv_save_and_switch,
}

abbrev r4_to_r7 : List Reg
r4_to_r7 = r4 ∷ r5 ∷ r6 ∷ r7 ∷ []

-- `PendSV` behind the read of PSP and in front of the call.
abbrev pub save_integers : List Instr
save_integers =
    subs r0 36
    ∷ stmia r0 r4_to_r7
    ∷ mov r4 r8
    ∷ mov r5 r9
    ∷ mov r6 r10
    ∷ mov r7 r11
    ∷ stmia r0 r4_to_r7
    ∷ mov r4 lr
    ∷ str r4 r0
    ∷ subs r0 32
    ∷ ldmia r0 r4_to_r7
    ∷ subs r0 16
    ∷ []

abbrev pub save : List Instr
save = mrs_psp r0 ∷ save_integers

-- Behind the call, up to the new PSP in r0 and EXC_RETURN in r1.
abbrev pub restore_integers : List Instr
restore_integers =
    ldmia r0 r4_to_r7
    ∷ ldmia r0 (r1 ∷ r2 ∷ [])
    ∷ mov r8 r1
    ∷ mov r9 r2
    ∷ ldmia r0 (r1 ∷ r2 ∷ [])
    ∷ mov r10 r1
    ∷ mov r11 r2
    ∷ ldr r1 r0
    ∷ adds r0 4
    ∷ []

abbrev pub restore : List Instr
restore = restore_integers ++ (msr_psp r0 ∷ bx r1 ∷ [])

abbrev pub pendsv : List Instr
pendsv = save ++ (bl pendsv_save_and_switch ∷ restore)

-- `SVCall` behind its call.
abbrev pub start : List Instr
start = restore_integers ++ (msr_psp r0 ∷ movs r2 2 ∷ msr_control r2 ∷ isb ∷ bx r1 ∷ [])

abbrev pub svcall : List Instr
svcall = bl svc_first_task_sp ∷ start

-- v8m.rs: `PendSV` without FPU, and `SVCall`.
abbrev pub v8m_pendsv : List Instr
v8m_pendsv = save ++ (bl pendsv_save_and_switch ∷ restore)

abbrev pub v8m_svcall : List Instr
v8m_svcall = bl svc_first_task_sp ∷ start
