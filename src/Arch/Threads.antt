-- ===== src/Arch/Threads.antt =====
-- The threads behind the task control blocks: their stacks, the frames of those that do not run, and the
-- calls of the exception stubs into the scheduler.
use kangaroos.Base.{
  ℕ, ◌+◌, ◌-◌, ◌*◌, ◌^◌, ◌≡◌, ◌≢◌, ◌≤◌, ◌<◌, ◌⊎◌, inl, inr, List, ◌∈◌, sym, arith, ◌==◌,
  if◌then◌else◌, Bool-cases, eq_of_==, ne_of_==,
}
use kangaroos.Run.{Run, ok, ◌>>=◌}
use kangaroos.Tcb.{Tasks}
use kangaroos.Kernel.{Kernel}
use kangaroos.Scheduler.{pendsv_save_and_switch, svc_first_task_sp}
use kangaroos.Arch.Cpu.{Cpu, store_words, HasWords}
use kangaroos.Arch.Asm.{Callee}
use kangaroos.Arch.Asm
use kangaroos.Arch.Words.{store_words-HasWords, HasWords-store_words}
use kangaroos.Arch.Stub.{Context, words, entered, Standard, NoFpca}

-- A call of Rust code under the procedure call standard: it keeps r4 to r11, returns in r0, and may change
-- r1 to r3, r12 and LR. It runs on the main stack, which is apart from the stacks of the threads. PSPLIM
-- becomes what `limit` says.
module _ (f : ℕ) (scratch : ℕ → Cpu → Kernel → ℕ) (limit : ℕ → Kernel → ℕ) where
  abbrev pub returned : ℕ → Kernel → Cpu → Cpu
  returned sp k c = record c {
    v0 = sp;
    v1 = scratch 1 c k;
    v2 = scratch 2 c k;
    v3 = scratch 3 c k;
    v12 = scratch 12 c k;
    link = scratch 14 c k;
    psplim = limit c.psplim k;
  }

  unfoldable pub rust_call : Callee → Cpu × Kernel → Run (Cpu × Kernel)
  rust_call Asm.svc_first_task_sp (c, k) = do
    (sp, k') ← svc_first_task_sp f k
    ok (returned sp k' c, k')
  rust_call Asm.pendsv_save_and_switch (c, k) = do
    (sp, k') ← pendsv_save_and_switch f c.v0 k
    ok (returned sp k' c, k')

-- Each thread has a stack from `lo` up to `hi`, with room for a frame below its stack pointer.
pub record OwnStacks (xs : List ℕ) (ctx : ℕ → Context) (lo hi : ℕ → ℕ) : Type 0 where
  pub room : (a : ℕ) → a ∈ xs → lo a + 36 ≤ (ctx a).psp
  pub top : (a : ℕ) → a ∈ xs → (ctx a).psp ≤ hi a
  pub small : (a : ℕ) → a ∈ xs → hi a < 2 ^ 32
  pub apart : (a b : ℕ) → a ∈ xs → b ∈ xs → a ≢ b → (hi a ≤ lo b) ⊎ (hi b ≤ lo a)

-- The registers of a thread that does not run are in the frame to which its `sp` points.
abbrev pub Parked : (ℕ → ℕ) → Tasks → Context → ℕ → Type 0
Parked m h x a = ((h a).sp + 36 ≡ x.psp) × HasWords m (h a).sp (words x)

frames_apart :
    (la ha lb hb pa pb sb : ℕ)
    → la + 36 ≤ pa
    → pa ≤ ha
    → lb + 36 ≤ pb
    → pb ≤ hb
    → (ha ≤ lb) ⊎ (hb ≤ la)
    → sb + 36 ≡ pb
    → (sb + 4 * 9 ≤ pa - 36) ⊎ (pa - 36 + 4 * 9 ≤ sb)
frames_apart la ha lb hb pa pb sb room_a top_a room_b top_b (inl p) e = inr (omega arith)
frames_apart la ha lb hb pa pb sb room_a top_a room_b top_b (inr p) e = inl (omega arith)

minus_plus : (l p : ℕ) → l + 36 ≤ p → p - 36 + 36 ≡ p
minus_plus l p room = omega arith

-- A frame for the thread `o` below its stack pointer leaves the frames of the others alone.
pub park :
    (m : ℕ → ℕ) (h g : Tasks) (xs : List ℕ) (ctx : ℕ → Context) (lo hi : ℕ → ℕ) (o : ℕ)
    → OwnStacks xs ctx lo hi
    → o ∈ xs
    → ((a : ℕ) → (g a).sp ≡ (if a == o then (ctx o).psp - 36 else (h a).sp))
    → ((a : ℕ) → a ∈ xs → a ≢ o → Parked m h (ctx a) a)
    → (a : ℕ) → a ∈ xs
    → Parked (store_words m ((ctx o).psp - 36) (words (ctx o))) g (ctx a) a
park m h g xs ctx lo hi o s known stacks parked a i = elim (Bool-cases (a == o)) [
  | inl e ↦
      rw (stacks a, e, eq_of_== a o e)
        (
          minus_plus (lo o) (ctx o).psp (s.room o known),
          store_words-HasWords m ((ctx o).psp - 36) (words (ctx o)),
        )
  | inr n ↦
      let ne = ne_of_== a o n in
      let (at, kept) = parked a i ne in
      rw (stacks a, n)
        (
          at,
          HasWords-store_words m ((ctx o).psp - 36) (words (ctx o)) (h a).sp (words (ctx a))
              (frames_apart (lo o) (hi o) (lo a) (hi a) (ctx o).psp (ctx a).psp (h a).sp
                (s.room o known) (s.top o known) (s.room a i) (s.top a i)
                (s.apart o a known i (λ q. ne (sym q))) at)
              kept,
        )
]

-- At the entry of a handler: `ctx` says what the registers of each thread are, those of the current one
-- in the processor and those of the others in their frames.
pub record IsOwned (c : Cpu) (k : Kernel) (xs : List ℕ) (ctx : ℕ → Context) (lo hi : ℕ → ℕ)
    : Type 0 where
  pub stacks : OwnStacks xs ctx lo hi
  pub current : ctx k.current ≡ entered c
  pub parked : (a : ℕ) → a ∈ xs → a ≢ k.current → Parked c.mem k.tasks (ctx a) a
  pub standard : (a : ℕ) → a ∈ xs → Standard (ctx a)
  pub no_fpca : NoFpca c
