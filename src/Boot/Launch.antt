-- ===== src/Boot/Launch.antt =====
-- From the tokens to the first task: `SVCall` behind `spawn_into`.
use kangaroos.Base.{
  ℕ, suc, ◌+◌, ◌-◌, ◌*◌, ◌^◌, ◌≡◌, ◌≤◌, ◌<◌, refl, sym, ap, subst, ◌∙◌, true, List, [], ◌∷◌, length,
  ◌==◌, eq_of_==, Bool-cases, inl, inr, arith, ◌∈◌,
}
use kangaroos.Run.{ok}
use kangaroos.Pick.{Picks, Picks-mem}
use kangaroos.Kernel.{Kernel}
use kangaroos.WaitList.Pop.{prio}
use kangaroos.Scheduler.{svc_first_task_sp}
use kangaroos.Scheduler.Invariant.{IsScheduled}
use kangaroos.Scheduler.Launch.{can_launch, launch_lem}
use kangaroos.Arch.Cpu.{Cpu, HasWords}
use kangaroos.Arch.Asm.{Instr, bl, exec, exec-call}
use kangaroos.Arch.Asm
use kangaroos.Arch.Words.{HasWords-split}
use kangaroos.Arch.Stub.{words, left}
use kangaroos.Arch.Frame.Laws.{initial, hardware_words, top_of_frame}
use kangaroos.Arch.Ports.{Port, stub_of, svcall_code, svcall_of-stub_of}
use kangaroos.Arch.Threads.{returned, rust_call}
use kangaroos.Boot.{SpawnToken, stack_of}
use kangaroos.Boot.Tokens.{IsFresh, AllTokens, tcbs, Booted}

-- The stack ends below 2^32.
abbrev pub InMemory : SpawnToken → Type 0
InMemory t = t.stack_ptr + 4 * t.stack_len < 2 ^ 32

token_of :
    (P : SpawnToken → Type 0) (Q : SpawnToken → Type 0) (ts : List SpawnToken) (b : ℕ)
    → AllTokens P ts
    → AllTokens Q ts
    → b ∈ tcbs ts
    → (t : SpawnToken) × (t.tcb_ptr ≡ b) × P t × Q t
token_of P Q [] b ps qs i = cc
token_of P Q (t ∷ ts) b ps qs i = elim (Bool-cases (b == t.tcb_ptr)) [
  | inl e ↦ (t, sym (eq_of_== b t.tcb_ptr e), ps.0, qs.0)
  | inr n ↦ token_of P Q ts b ps.1 qs.1 (ground (arith, i, n))
]

pub length-tcbs : (ts : List SpawnToken) → length (tcbs ts) ≡ length ts
length-tcbs [] = refl
length-tcbs (t ∷ ts) = ap suc (length-tcbs ts)

frame_end :
    (p n : ℕ)
    → 21 ≤ n
    → p + 4 * n < 2 ^ 32
    → (p + 4 * (n - 17) + 36 ≡ p + 4 * (n - 8)) × (p + 4 * (n - 8) < 2 ^ 32)
frame_end p n room small = omega arith

module _ (exit_lr f : ℕ) (scratch : ℕ → Cpu → Kernel → ℕ) (limit : ℕ → Kernel → ℕ)
    (port : Port) where
  -- The first thread `t`: it has its initial registers, and the hardware finds its entry on its stack.
  pub record Starts (c : Cpu) (k : Kernel) (t : SpawnToken) (c' : Cpu) (g : Kernel) : Type 0 where
    pub returns : exec (rust_call f scratch limit) (svcall_code port) (c, k) ≡ ok (c', g)
    pub registers : left c' ≡ initial (stack_of t)
    pub entry : HasWords c'.mem c'.psp (hardware_words exit_lr t.entry)
    pub thread_mode : c'.control ≡ 2
    pub limited : c'.psplim ≡ limit c.psplim g
    pub current : g.current ≡ t.tcb_ptr

  called :
      (c : Cpu) (k : Kernel) (sp : ℕ) (g : Kernel)
      → svc_first_task_sp f k ≡ ok (sp, g)
      → rust_call f scratch limit Asm.svc_first_task_sp (c, k)
        ≡ ok (returned f scratch limit sp g c, g)
  unfolding rust_call
  called c k sp g returns = rw returns refl

  starts_lem :
      (c : Cpu) (k : Kernel) (t : SpawnToken) (g : Kernel)
      → IsFresh exit_lr c.mem k t
      → InMemory t
      → svc_first_task_sp f k ≡ ok ((k.tasks t.tcb_ptr).sp, g)
      → g.current ≡ t.tcb_ptr
      → (c' : Cpu) × Starts c k t c' g
  unfolding exec
  starts_lem c k t g fresh small returns cur =
      let call = rust_call f scratch limit in
      let stub = stub_of port in
      let sp = (k.tasks t.tcb_ptr).sp in
      let (end, below) = frame_end t.stack_ptr t.stack_len fresh.room small in
      let (own, hw) =
        HasWords-split c.mem (top_of_frame (stack_of t)) (words (initial (stack_of t)))
          (hardware_words exit_lr t.entry) fresh.frame in
      let (c', ran, back, mem, control, lim) =
        stub.starts call (returned f scratch limit sp g c) g (initial (stack_of t))
          (ap (λ a. a + 36) fresh.sp ∙ end) below
          (subst (λ a. HasWords c.mem a (words (initial (stack_of t)))) (sym fresh.sp) own) in
      (
        c',
        record {
          returns =
              ap (λ is. exec call is (c, k)) (sym (svcall_of-stub_of port))
              ∙ exec-call call [] stub.start Asm.svc_first_task_sp (c, k) (c, k) _ refl
                  (called c k sp g returns)
              ∙ ran;
          registers = back;
          entry = rw mem (
              subst (λ a. HasWords c.mem a (hardware_words exit_lr t.entry))
                (end ∙ sym (ap (λ x. x.psp) back)) hw);
          thread_mode = control;
          limited = lim;
          current = cur;
        },
      )

  -- With a spawned task above the idle priority, `SVCall` starts the first of those with the least priority
  -- number: it leaves the handler with the task's initial registers, and on top of its stack the hardware
  -- finds the task's entry.
  pub svcall-launches :
      (ts : List SpawnToken) (c : Cpu) (k : Kernel)
      → Booted exit_lr ts c.mem k
      → AllTokens InMemory ts
      → length ts < f
      → (i : ℕ) → i ∈ tcbs ts
      → can_launch k.tasks i ≡ true
      → (t : SpawnToken) × (c' : Cpu) × (g : Kernel) × Starts c k t c' g
        × Picks (can_launch k.tasks) (prio k.tasks) (tcbs ts) t.tcb_ptr
        × IsScheduled g (tcbs ts)
  svcall-launches ts c k s small fuel i m can =
      let enough = subst (λ n. n < f) (sym (length-tcbs ts)) fuel in
      let (b, g, returns, picked, cur, runs, others, sched) =
        launch_lem f k (tcbs ts) s.spawned enough i m can in
      let (t, e, fresh, in_memory) =
        token_of (IsFresh exit_lr c.mem k) InMemory ts b s.fresh small (Picks-mem _ _ _ b picked) in
      let (c', starts) =
        starts_lem c k t g fresh in_memory (returns ∙ ap (λ a. ok ((k.tasks a).sp, g)) (sym e))
          (cur ∙ sym e) in
      (
        t,
        c',
        g,
        starts,
        subst (λ a. Picks (can_launch k.tasks) (prio k.tasks) (tcbs ts) a) (sym e) picked,
        sched,
      )

  -- The task of a token with a priority above that of the idle task can be launched.
  pub fresh-can_launch :
      (ts : List SpawnToken) (m : ℕ → ℕ) (k : Kernel) (i : ℕ)
      → AllTokens (IsFresh exit_lr m k) ts
      → AllTokens (λ t. t.tcb_ptr ≡ i → t.priority < 255) ts
      → i ∈ tcbs ts
      → can_launch k.tasks i ≡ true
  fresh-can_launch ts m k i fresh low mem =
      let (t, e, own, above) =
        token_of (IsFresh exit_lr m k) (λ t. t.tcb_ptr ≡ i → t.priority < 255) ts i fresh low mem in
      subst (λ a. can_launch k.tasks a ≡ true) e
        (rw (own.state, own.priority) (ground (arith, above e)))
