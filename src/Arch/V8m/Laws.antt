-- ===== src/Arch/V8m/Laws.antt =====
-- The copies in v8m.rs do what those in scheduler.rs do, and set PSPLIM to the base of the new task's stack.
use kangaroos.Base.{
  ℕ, zero, suc, ◌≡◌, refl, ap, fun_ext, ◌==◌, if◌then◌else◌, Bool-cases, inl, inr, arith,
}
use kangaroos.Run.{Run, ok, panic, null_deref, uninit_read, out_of_fuel, ◌>>=◌}
use kangaroos.Tcb.{null, Tasks, running, load, write, set_state, set_state_self}
use kangaroos.Kernel.{Kernel}
use kangaroos.Scheduler.{first_task, dispatch, slice_of, suspended, find_next}
use kangaroos.Scheduler
use kangaroos.Arch.V8m.{best_ready, run_task, svc_first_task_sp, pendsv_save_and_switch}

-- The result of scheduler.rs with the value that PSPLIM gets.
abbrev pub with_limit : ℕ × Kernel → Run (ℕ × ℕ × Kernel)
with_limit (sp, g) = ok (sp, (g.tasks g.current).stack_base, g)

best_ready_lem :
    (f : ℕ) (h : Tasks) (best p t : ℕ) → best_ready f h best p t ≡ first_task f h best p t
unfolding best_ready first_task
best_ready_lem zero h best p t = refl
best_ready_lem (suc f) h best p t =
    ap (λ r. if t == null then ok best else r) (best_ready_lem f h _ _ (h t).all_next)

-- A slice, then the task runs.
runs :
    (k : Kernel) (b : ℕ) (r : Run ℕ)
    → (r >>= λ slice.
        let h = set_state k.tasks b (running slice) in
        ok ((h b).sp, (h b).stack_base, record k { current = b; tasks = h }))
      ≡ ((r >>= λ slice.
            ok (
              (k.tasks b).sp,
              record k { current = b; tasks = set_state k.tasks b (running slice) },
            ))
          >>= with_limit)
runs k b (ok slice) = rw (set_state_self k.tasks b (running slice)) refl
runs k b panic = refl
runs k b null_deref = refl
runs k b uninit_read = refl
runs k b out_of_fuel = refl

run_task_lem : (k : Kernel) (b : ℕ) → run_task k b ≡ (dispatch k b >>= with_limit)
unfolding run_task dispatch load
run_task_lem k b = elim (Bool-cases (b == null)) [
  | inl e ↦ rw e refl
  | inr e ↦ rw e (runs k b (slice_of (k.tasks b).state))
]

then_runs :
    (k : Kernel) (r : Run ℕ) → (r >>= λ b. run_task k b) ≡ (r >>= λ b. dispatch k b) >>= with_limit
then_runs k (ok b) = run_task_lem k b
then_runs k panic = refl
then_runs k null_deref = refl
then_runs k uninit_read = refl
then_runs k out_of_fuel = refl

-- The first task of v8m.rs is that of scheduler.rs, and PSPLIM becomes the base of its stack.
pub svc_first_task_sp_lem :
    (f : ℕ) (k : Kernel) → svc_first_task_sp f k ≡ (Scheduler.svc_first_task_sp f k >>= with_limit)
unfolding svc_first_task_sp Scheduler.svc_first_task_sp
svc_first_task_sp_lem f k =
    rw (best_ready_lem f k.tasks null 255 k.all_tasks)
      (then_runs k (first_task f k.tasks null 255 k.all_tasks))

-- The two writes are one.
written_twice :
    (h : Tasks) (p sp : ℕ)
    → (let h' = write h p (record (h p) { sp = sp }) in set_state h' p (suspended (h' p).state))
      ≡ write h p (record (h p) { sp = sp; state = suspended (h p).state })
unfolding set_state write
written_twice h p sp = fun_ext λ a. ground arith

-- The switch of v8m.rs is that of scheduler.rs, and PSPLIM becomes the base of the new task's stack.
pub pendsv_save_and_switch_lem :
    (f sp : ℕ) (k : Kernel)
    → pendsv_save_and_switch f sp k ≡ (Scheduler.pendsv_save_and_switch f sp k >>= with_limit)
unfolding pendsv_save_and_switch Scheduler.pendsv_save_and_switch load
pendsv_save_and_switch_lem f sp k = elim (Bool-cases (k.current == null)) [
  | inl e ↦ rw e refl
  | inr e ↦ rw (e, written_twice k.tasks k.current sp) (then_runs _ (find_next f _))
]
