-- ===== src/Arch/Tests.antt =====
-- The context switch of v7m.rs between three threads.
use kangaroos.Base.{
  ℕ, ◌+◌, ◌*◌, ◌≡◌, ◌≢◌, ◌<◌, ◌≤◌, refl, false, ◌∈◌, ◌==◌, arith, Bool-cases, eq_of_==, inl, inr,
  ◌⊎◌,
}
use kangaroos.Run.{ok}
use kangaroos.Tcb.{Tcb, ready, running, load, write, set_state}
use kangaroos.Kernel.{Kernel}
use kangaroos.Scheduler.{find_next, pass, start, dispatch, pendsv_save_and_switch}
use kangaroos.Scheduler.Invariant.{IsScheduled}
use kangaroos.Samples.{calm, ids, busy}
use kangaroos.Arch.Cpu.{Cpu, put, store_words}
use kangaroos.Arch.Asm.{exec}
use kangaroos.Arch.Stub.{Context, words, entered, left}
use kangaroos.Arch.Ports.{armv7m}
use kangaroos.Arch.Threads.{rust_call, OwnStacks, Parked, IsOwned}
use kangaroos.Arch.Switch.{pendsv, Resumed, pendsv_lem}
use kangaroos.Arch.Asm
use kangaroos.Scheduler.Switch.{Switched}
use kangaroos.Arch.V8m.Calls.{v8m_call, base_limit, v8m_call_lem}
use kangaroos.Arch.Fpu.{v7em_pendsv}
use kangaroos.Arch.Fpu.Drift.{v7em_pendsv-drifts}
use kangaroos.Arch.Ran.{Ran}
use kangaroos.Arch.Rounds.{none_yet, one_more, pendsv-resumes}

abbrev lo : ℕ → ℕ
lo a = 1000 * a

abbrev hi : ℕ → ℕ
hi a = 1000 * a + 400

-- What the thread `a` has in its registers.
abbrev ctx : ℕ → Context
ctx a = record {
  x4 = a;
  x5 = 5;
  x6 = 6;
  x7 = 7;
  x8 = 8;
  x9 = 9;
  x10 = 10;
  x11 = 11;
  exc_return = 0xFFFFFFFD;
  psp = 1000 * a + 300;
}

abbrev cpu : (a psp pc : ℕ) → (ℕ → ℕ) → Cpu
cpu a psp pc m = record {
  v0 = psp;
  v1 = 0;
  v2 = 0;
  v3 = 0;
  v4 = a;
  v5 = 5;
  v6 = 6;
  v7 = 7;
  v8 = 8;
  v9 = 9;
  v10 = 10;
  v11 = 11;
  v12 = 0;
  link = 0xFFFFFFFD;
  pc = pc;
  psp = psp;
  psplim = 0;
  control = 2;
  zero_flag = false;
  fpu = λ i. 0;
  mem = m;
}

abbrev with_sp : (ℕ → ℕ) → Kernel → Kernel
with_sp sps k = record k { tasks = λ a. record (k.tasks a) { sp = sps a } }

-- Thread 2 runs, the others have their frames.
abbrev frames : ℕ → ℕ
frames = store_words (store_words (λ i. 0) 1264 (words (ctx 1))) 3264 (words (ctx 3))

abbrev k₀ : Kernel
k₀ = with_sp (λ a. 1000 * a + 264) busy

abbrev c₀ : Cpu
c₀ = cpu 2 2300 0 frames

-- Thread 1 runs, changes r4 and a word of its stack, and is interrupted with a lower stack pointer.
abbrev saved : Tcb
saved = record (k₀.tasks 2) { sp = 2264; state = ready 3 }

abbrev k₁ : Kernel
k₁ = record k₀ { current = 1; tasks = set_state (write k₀.tasks 2 saved) 1 (running 2) }

abbrev c₁ : Cpu
c₁ = cpu 1 1300 0xFFFFFFFD (store_words frames 2264 (words (ctx 2)))

abbrev d₁ : Cpu
d₁ = cpu 77 1280 0 (put c₁.mem 1288 5)

abbrev saved₁ : Tcb
saved₁ = record (k₁.tasks 1) { sp = 1244; state = ready 2 }

abbrev k₂ : Kernel
k₂ = record k₁ { current = 2; tasks = set_state (write k₁.tasks 1 saved₁) 2 (running 3) }

abbrev c₂ : Cpu
c₂ = cpu 2 2300 0xFFFFFFFD (store_words d₁.mem 1244 (words (entered d₁)))

switched_to_1 : pendsv 4 (λ r c k. 0) (λ l k. l) armv7m ids (c₀, k₀) ≡ ok (c₁, k₁)
unfolding pendsv exec rust_call store_words put pendsv_save_and_switch find_next pass start dispatch
    load write set_state
switched_to_1 = refl

switched_to_2 : pendsv 4 (λ r c k. 0) (λ l k. l) armv7m ids (d₁, k₁) ≡ ok (c₂, k₂)
unfolding pendsv exec rust_call store_words put pendsv_save_and_switch find_next pass start dispatch
    load write set_state
switched_to_2 = refl

in_ids : (P : ℕ → Type 0) → P 1 → P 2 → P 3 → (a : ℕ) → a ∈ ids → P a
in_ids P p₁ p₂ p₃ a i = elim (Bool-cases (a == 1)) [
  | inl e ↦ rw (eq_of_== a 1 e) p₁
  | inr n ↦ elim (Bool-cases (a == 2)) [
    | inl e ↦ rw (eq_of_== a 2 e) p₂
    | inr n' ↦ rw (eq_of_== a 3 (ground arith)) p₃
  ]
]

k₀-IsScheduled : IsScheduled k₀ ids
k₀-IsScheduled = record {
  chain = ground arith;
  head = refl;
  known = refl;
  alone = λ a m ne. ground arith;
}

k₁-IsScheduled : IsScheduled k₁ ids
unfolding set_state write
k₁-IsScheduled = record {
  chain = ground arith;
  head = refl;
  known = refl;
  alone = λ a m ne. ground arith;
}

stacks_apart : (a b : ℕ) → a ≢ b → (hi a ≤ lo b) ⊎ (hi b ≤ lo a)
stacks_apart a b ne = ground arith

own_stacks : OwnStacks ids ctx lo hi
own_stacks = record {
  room = λ a i. omega arith;
  top = λ a i. omega arith;
  small = in_ids (λ a. hi a < 4294967296) (omega arith) (omega arith) (omega arith);
  apart = λ a b i j ne. stacks_apart a b ne;
}

c₀-IsOwned : IsOwned c₀ k₀ ids ctx lo hi
unfolding store_words put
c₀-IsOwned = record {
  stacks = own_stacks;
  current = refl;
  parked =
      in_ids (λ a. a ≢ 2 → Parked frames k₀.tasks (ctx a) a)
        (λ ne. (refl, (refl, (refl, (refl, (refl, (refl, (refl, (refl, (refl, (refl, tt)))))))))))
        (λ ne. absurd (ne refl))
        (λ ne. (refl, (refl, (refl, (refl, (refl, (refl, (refl, (refl, (refl, (refl, tt)))))))))));
  standard = λ a i e. omega (arith, e);
  no_fpca = refl;
}

d₁-Ran : Ran ids lo hi c₁ k₁ d₁ k₁
unfolding put set_state
d₁-Ran = record {
  same = refl;
  sps = λ a. refl;
  room = omega arith;
  top = omega arith;
  writes = λ i out. ground arith;
  standard = λ e. omega (arith, e);
  no_fpca = refl;
  scheduled = k₁-IsScheduled;
  can_run = (1, refl, refl);
}

pendsv-resumes_example : (left c₂ ≡ ctx 2) × ((i : ℕ) → 2300 ≤ i → i < 2400 → c₂.mem i ≡ frames i)
pendsv-resumes_example =
    pendsv-resumes 4 (λ r c k. 0) (λ l k. l) armv7m ids lo hi ctx c₀ d₁ c₂ k₀ k₁ k₂ (omega arith)
      k₀-IsScheduled (1, refl, refl) c₀-IsOwned
      (one_more none_yet switched_to_1 (λ e. omega (arith, e)) d₁-Ran) switched_to_2 refl

pendsv_lem_example :
    (b : ℕ) × (c : Cpu) × (g : Kernel) × Resumed 4 (λ r c k. 0) (λ l k. l) armv7m ids ctx c₀ k₀ c g
    × Switched 2264 k₀ ids b g
    × IsScheduled g ids
pendsv_lem_example =
    pendsv_lem 4 (λ r c k. 0) (λ l k. l) armv7m ids c₀ k₀ ctx lo hi k₀-IsScheduled (omega arith)
      c₀-IsOwned 1 refl refl

v8m_call_lem_example :
    v8m_call 4 (λ r c k. 0) Asm.pendsv_save_and_switch (c₀, k₀)
    ≡ rust_call 4 (λ r c k. 0) base_limit Asm.pendsv_save_and_switch (c₀, k₀)
v8m_call_lem_example = v8m_call_lem 4 (λ r c k. 0) Asm.pendsv_save_and_switch c₀ k₀

-- Thread 2 has used the FPU.
abbrev with_fpu : Cpu
with_fpu = record c₀ { link = 0xFFFFFFED }

-- Task 1 sleeps, so that the idle task is the only other one that can run.
abbrev k_calm : Kernel
k_calm = with_sp (λ a. 1000 * a + 264) calm

k_calm-IsScheduled : IsScheduled k_calm ids
k_calm-IsScheduled = record {
  chain = ground arith;
  head = refl;
  known = refl;
  alone = λ a m ne. ground arith;
}

v7em_pendsv-drifts_example :
    (c : Cpu) × (g : Kernel) × (exec
        (rust_call 4 (λ r c k. 0) (λ l k. l))
        v7em_pendsv
        (with_fpu, k_calm)
      ≡ ok (c, g))
    × (g.current ≡ 2)
    × (c.psp ≡ 2364)
v7em_pendsv-drifts_example =
    v7em_pendsv-drifts 4 (λ r c k. 0) (λ l k. l) k_calm ids with_fpu k_calm-IsScheduled
      (omega arith) refl (λ a m ne can. ground arith) (omega arith) (omega arith) refl refl
