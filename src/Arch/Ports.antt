-- ===== src/Arch/Ports.antt =====
-- The ports of kangaroos/src/arch that have exception stubs.
use kangaroos.Base.{ℕ, List, ◌∷◌, ◌++◌, ◌≡◌, refl}
use kangaroos.Arch.Asm.{Instr, bl}
use kangaroos.Arch.Asm
use kangaroos.Run.{Run}
use kangaroos.Arch.Frame.{Slice, v6m_stack_init, v7m_stack_init, v7em_stack_init, v8m_stack_init}
use kangaroos.Arch.Stub.{Stub}
use kangaroos.Arch.V6m
use kangaroos.Arch.V6m.Laws.{v6m}
use kangaroos.Arch.V7m
use kangaroos.Arch.V7m.Laws.{v7m}
use kangaroos.Arch.Fpu
use kangaroos.Arch.Fpu.Laws.{v7em, v8m}

pub data Port : Type 0 where
  armv6m armv7m armv7em_fpu armv8m armv8m_fpu : Port

-- `PendSV` and `SVCall`.
abbrev pub pendsv_code : Port → List Instr
pendsv_code armv6m = V6m.pendsv
pendsv_code armv7m = V7m.pendsv
pendsv_code armv7em_fpu = Fpu.v7em_pendsv
pendsv_code armv8m = V6m.v8m_pendsv
pendsv_code armv8m_fpu = Fpu.v8m_fpu_pendsv

abbrev pub svcall_code : Port → List Instr
svcall_code armv6m = V6m.svcall
svcall_code armv7m = V7m.svcall
svcall_code armv7em_fpu = Fpu.v7em_svcall
svcall_code armv8m = V6m.v8m_svcall
svcall_code armv8m_fpu = V6m.v8m_svcall

abbrev pub stack_init_of : Port → (task_exit : ℕ) → (ℕ → ℕ) → Slice → ℕ → Run (ℕ × (ℕ → ℕ))
stack_init_of armv6m = v6m_stack_init
stack_init_of armv7m = v7m_stack_init
stack_init_of armv7em_fpu = v7em_stack_init
stack_init_of armv8m = v8m_stack_init
stack_init_of armv8m_fpu = v8m_stack_init

abbrev pub stub_of : Port → Stub
stub_of armv6m = v6m
stub_of armv7m = v7m
stub_of armv7em_fpu = v7em
stub_of armv8m = v6m
stub_of armv8m_fpu = v8m

abbrev pub pendsv_of : Stub → List Instr
pendsv_of stub = stub.save ++ (bl Asm.pendsv_save_and_switch ∷ stub.restore)

abbrev pub svcall_of : Stub → List Instr
svcall_of stub = bl Asm.svc_first_task_sp ∷ stub.start

pub pendsv_of-stub_of : (p : Port) → pendsv_of (stub_of p) ≡ pendsv_code p
unfolding v6m v7m v7em v8m
pendsv_of-stub_of armv6m = refl
pendsv_of-stub_of armv7m = refl
pendsv_of-stub_of armv7em_fpu = refl
pendsv_of-stub_of armv8m = refl
pendsv_of-stub_of armv8m_fpu = refl

pub svcall_of-stub_of : (p : Port) → svcall_of (stub_of p) ≡ svcall_code p
unfolding v6m v7m v7em v8m
svcall_of-stub_of armv6m = refl
svcall_of-stub_of armv7m = refl
svcall_of-stub_of armv7em_fpu = refl
svcall_of-stub_of armv8m = refl
svcall_of-stub_of armv8m_fpu = refl
