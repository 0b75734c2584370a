-- ===== src/Arch/V8m/Calls.antt =====
-- The stubs of v8m.rs around its own copies of the scheduler's functions.
use kangaroos.Base.{ℕ, ◌≡◌, refl, ap, ◌∙◌}
use kangaroos.Run.{Run, ok, panic, null_deref, uninit_read, out_of_fuel, ◌>>=◌}
use kangaroos.Kernel.{Kernel}
use kangaroos.Scheduler
use kangaroos.Arch.Cpu.{Cpu}
use kangaroos.Arch.Asm.{Callee}
use kangaroos.Arch.Asm
use kangaroos.Arch.V8m
use kangaroos.Arch.V8m.Laws.{with_limit, svc_first_task_sp_lem, pendsv_save_and_switch_lem}
use kangaroos.Arch.Threads.{returned, rust_call}

-- PSPLIM becomes the base of the current task's stack.
abbrev pub base_limit : ℕ → Kernel → ℕ
base_limit old g = (g.tasks g.current).stack_base

module _ (f : ℕ) (scratch : ℕ → Cpu → Kernel → ℕ) where
  -- The call writes PSPLIM itself.
  abbrev v8m_returned : Cpu → ℕ × ℕ × Kernel → Run (Cpu × Kernel)
  v8m_returned c (sp, psplim, g) = ok (returned f scratch (λ old k. psplim) sp g c, g)

  pub v8m_call : Callee → Cpu × Kernel → Run (Cpu × Kernel)
  v8m_call Asm.svc_first_task_sp (c, k) = V8m.svc_first_task_sp f k >>= v8m_returned c
  v8m_call Asm.pendsv_save_and_switch (c, k) =
      V8m.pendsv_save_and_switch f c.v0 k >>= v8m_returned c

  same_call :
      (c : Cpu) (r : Run (ℕ × Kernel))
      → (r >>= with_limit >>= v8m_returned c)
        ≡ (r >>= λ p. ok (returned f scratch base_limit p.0 p.1 c, p.1))
  same_call c (ok p) = refl
  same_call c panic = refl
  same_call c null_deref = refl
  same_call c uninit_read = refl
  same_call c out_of_fuel = refl

  -- The calls of v8m.rs are those of scheduler.rs with PSPLIM at the base of the current task's stack.
  pub v8m_call_lem :
      (callee : Callee) (c : Cpu) (k : Kernel)
      → v8m_call callee (c, k) ≡ rust_call f scratch base_limit callee (c, k)
  unfolding v8m_call rust_call
  v8m_call_lem Asm.svc_first_task_sp c k =
      ap (λ r. r >>= v8m_returned c) (svc_first_task_sp_lem f k)
      ∙ same_call c (Scheduler.svc_first_task_sp f k)
  v8m_call_lem Asm.pendsv_save_and_switch c k =
      ap (λ r. r >>= v8m_returned c) (pendsv_save_and_switch_lem f c.v0 k)
      ∙ same_call c (Scheduler.pendsv_save_and_switch f c.v0 k)
