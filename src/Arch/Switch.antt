-- ===== src/Arch/Switch.antt =====
-- `PendSV` and `SVCall` as a whole: the stub around the scheduler moves the processor from thread to thread.
use kangaroos.Base.{
  ℕ, ◌+◌, ◌-◌, ◌^◌, ◌≡◌, ◌≤◌, ◌<◌, true, List, ◌∈◌, has, length, refl, sym, ap, subst, ◌∙◌, arith,
  ◌==◌, if◌then◌else◌,
}
use kangaroos.Run.{Run, ok}
use kangaroos.Kernel.{Kernel}
use kangaroos.Scheduler.{eligible, pendsv_save_and_switch}
use kangaroos.Scheduler.Invariant.{IsScheduled}
use kangaroos.Scheduler.Switch.{Switched, switch_lem}
use kangaroos.Arch.Cpu.{Cpu, store_words}
use kangaroos.Arch.Asm.{Callee, bl, exec, exec-call}
use kangaroos.Arch.Asm
use kangaroos.Arch.Words.{Outside, store_words_elsewhere}
use kangaroos.Arch.Stub.{Context, words, entered, left}
use kangaroos.Arch.Ports.{Port, stub_of, pendsv_code, pendsv_of-stub_of}
use kangaroos.Arch.Threads.{returned, rust_call, Parked, park, IsOwned}

psp_bounds : (l p h : ℕ) → l + 36 ≤ p → p ≤ h → h < 2 ^ 32 → (36 ≤ p) × (p < 2 ^ 32)
psp_bounds l p h room top small = omega arith

module _ (f : ℕ) (scratch : ℕ → Cpu → Kernel → ℕ) (limit : ℕ → Kernel → ℕ) (port : Port)
    (xs : List ℕ) where
  unfoldable pub pendsv : Cpu × Kernel → Run (Cpu × Kernel)
  pendsv st = exec (rust_call f scratch limit) (pendsv_code port) st

  -- `PendSV` entered with `c` and `k` leaves the processor and the kernel so.
  pub record Resumed (ctx : ℕ → Context) (c : Cpu) (k : Kernel) (c' : Cpu) (g : Kernel)
      : Type 0 where
    pub returns : pendsv (c, k) ≡ ok (c', g)
    pub resumed : left c' ≡ ctx g.current
    pub parked : (a : ℕ) → a ∈ xs → Parked c'.mem g.tasks (ctx a) a
    pub frame : (i : ℕ) → Outside i (c.psp - 36) 9 → c'.mem i ≡ c.mem i
    pub limited : c'.psplim ≡ limit c.psplim g

module _ (f : ℕ) (scratch : ℕ → Cpu → Kernel → ℕ) (limit : ℕ → Kernel → ℕ) (port : Port)
    (xs : List ℕ) (c : Cpu) (k : Kernel) (ctx : ℕ → Context) (lo hi : ℕ → ℕ) (s : IsScheduled k xs)
    (fuel : length xs < f) (owned : IsOwned c k xs ctx lo hi) where
  called :
      (c₁ : Cpu) (sp : ℕ) (g : Kernel)
      → c₁.v0 ≡ c.psp - 36
      → pendsv_save_and_switch f (c.psp - 36) k ≡ ok (sp, g)
      → rust_call f scratch limit Asm.pendsv_save_and_switch (c₁, k)
        ≡ ok (returned f scratch limit sp g c₁, g)
  unfolding rust_call
  called c₁ sp g e returns = rw (e, returns) refl

  bounds : (36 ≤ c.psp) × (c.psp < 2 ^ 32)
  bounds =
      let own = owned.stacks in
      let e : (ctx k.current).psp ≡ c.psp = ap (λ x. x.psp) owned.current in
      rw e at (
        psp_bounds _ _ _ (own.room k.current s.known) (own.top k.current s.known)
          (own.small k.current s.known))

  -- The save parks the old thread.
  all_parked :
      (c₁ : Cpu) (b : ℕ) (g : Kernel)
      → c₁.mem ≡ store_words c.mem (c.psp - 36) (words (entered c))
      → Switched (c.psp - 36) k xs b g
      → (a : ℕ) → a ∈ xs
      → Parked c₁.mem g.tasks (ctx a) a
  all_parked c₁ b g e done a i =
      let stacks =
        subst
          (λ x. (a : ℕ) → (g.tasks a).sp ≡ (if a == k.current then x.psp - 36 else (k.tasks a).sp))
          (sym owned.current) done.stacks in
      rw e (
        subst (λ x. Parked (store_words c.mem (x.psp - 36) (words x)) g.tasks (ctx a) a)
          owned.current
          (park c.mem k.tasks g.tasks xs ctx lo hi k.current owned.stacks s.known stacks
            owned.parked a i))

  -- The stub behind the call.
  resume :
      (c₁ : Cpu) (b : ℕ) (g : Kernel)
      → exec (rust_call f scratch limit) (stub_of port).save (c, k) ≡ ok (c₁, k)
      → c₁.v0 ≡ c.psp - 36
      → c₁.mem ≡ store_words c.mem (c.psp - 36) (words (entered c))
      → c₁.psplim ≡ c.psplim
      → pendsv_save_and_switch f (c.psp - 36) k ≡ ok ((g.tasks b).sp, g)
      → b ∈ xs
      → Switched (c.psp - 36) k xs b g
      → (c' : Cpu) × Resumed f scratch limit port xs ctx c k c' g
  unfolding pendsv
  resume c₁ b g saved at mem lim returns i done =
      let own = owned.stacks in
      let parked = all_parked c₁ b g mem done in
      let (c', ran, back, mem', lim') =
        (stub_of port).restores (rust_call f scratch limit)
          (returned f scratch limit (g.tasks b).sp g c₁) g (ctx b) (parked b i).0
          (psp_bounds _ _ _ (own.room b i) (own.top b i) (own.small b i)).1 (owned.standard b i)
          (parked b i).1 in
      (
        c',
        record {
          returns =
              ap (λ is. exec (rust_call f scratch limit) is (c, k)) (sym (pendsv_of-stub_of port))
              ∙ exec-call (rust_call f scratch limit) (stub_of port).save (stub_of port).restore
                  Asm.pendsv_save_and_switch (c, k) (c₁, k) _ saved
                  (called c₁ (g.tasks b).sp g at returns)
              ∙ ran;
          resumed = back ∙ ap ctx (sym done.current);
          parked = rw mem' parked;
          frame = λ i out.
              ap (λ m. m i) (mem' ∙ mem)
              ∙ store_words_elsewhere c.mem (c.psp - 36) (words (entered c)) i out;
          limited = lim' ∙ ap (λ l. limit l g) lim;
        },
      )

  -- With a task that can run, no use of the FPU, and the frames of the threads that do not run on
  -- stacks that do not overlap, `PendSV` ends without a fault. The processor has the registers of a
  -- round-robin winner, the frames of all threads hold their registers, and no memory but the frame of
  -- the old thread has changed; the scheduler has switched and its invariant holds again.
  pub pendsv_lem :
      (i : ℕ)
      → i ∈ xs
      → eligible (k.tasks i).state ≡ true
      → (b : ℕ) × (c' : Cpu) × (g : Kernel) × Resumed f scratch limit port xs ctx c k c' g
        × Switched (c.psp - 36) k xs b g
        × IsScheduled g xs
  pendsv_lem i m can =
      let (c₁, saved, at, mem, lim) =
        (stub_of port).saves (rust_call f scratch limit) c k bounds.0 bounds.1 owned.no_fpca in
      let (b, g, returns, done, again) = switch_lem f (c.psp - 36) k xs s fuel i m can in
      let (c', r) =
        resume c₁ b g saved at mem lim returns (ap (λ x. has x xs) (sym done.current) ∙ again.known)
          done in
      (b, c', g, r, done, again)
