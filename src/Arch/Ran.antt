-- ===== src/Arch/Ran.antt =====
-- A thread between two context switches.
use kangaroos.Base.{
  ℕ, ◌+◌, ◌*◌, ◌≡◌, ◌≢◌, ◌≤◌, ◌<◌, ◌⊎◌, inl, inr, true, List, ◌∈◌, refl, sym, ap, subst, ◌∙◌, arith,
  ◌==◌, if◌then◌else◌, Bool-cases, eq_of_==, ne_of_==, ==_self, ==-false_of_ne,
}
use kangaroos.Kernel.{Kernel}
use kangaroos.Scheduler.{eligible}
use kangaroos.Scheduler.Invariant.{IsScheduled}
use kangaroos.Arch.Cpu.{Cpu}
use kangaroos.Arch.Words.{HasWords-agree}
use kangaroos.Arch.Stub.{Context, words, entered, Standard, NoFpca}
use kangaroos.Arch.Threads.{OwnStacks, Parked, IsOwned}

abbrev pub CanRun : Kernel → List ℕ → Type 0
CanRun k xs = (i : ℕ) × (i ∈ xs) × (eligible (k.tasks i).state ≡ true)

-- Between two entries of `PendSV` the thread that was resumed ran: it wrote to its own stack only, and has
-- room for a frame. The kernel's calls in between keep the saved stack pointers and `CURRENT`.
pub record Ran (xs : List ℕ) (lo hi : ℕ → ℕ) (c : Cpu) (g : Kernel) (d : Cpu) (k : Kernel)
    : Type 0 where
  pub same : k.current ≡ g.current
  pub sps : (a : ℕ) → (k.tasks a).sp ≡ (g.tasks a).sp
  pub room : lo g.current + 36 ≤ d.psp
  pub top : d.psp ≤ hi g.current
  pub writes : (i : ℕ) → (i < lo g.current) ⊎ (hi g.current ≤ i) → d.mem i ≡ c.mem i
  pub standard : Standard (entered d)
  pub no_fpca : NoFpca d
  pub scheduled : IsScheduled k xs
  pub can_run : CanRun k xs

-- The frame of `a` is apart from the stack of `b`.
in_own_stack :
    (la ha lb hb p sp i : ℕ)
    → la + 36 ≤ p
    → p ≤ ha
    → (ha ≤ lb) ⊎ (hb ≤ la)
    → sp + 36 ≡ p
    → sp ≤ i
    → i < sp + 4 * 9
    → (i < lb) ⊎ (hb ≤ i)
in_own_stack la ha lb hb p sp i room top (inl q) e ge lt = inl (omega arith)
in_own_stack la ha lb hb p sp i room top (inr q) e ge lt = inr (omega arith)

module _ (xs : List ℕ) (lo hi : ℕ → ℕ) (ctx : ℕ → Context) (c : Cpu) (g : Kernel) (d : Cpu)
    (k : Kernel) (own : OwnStacks xs ctx lo hi) (standard : (a : ℕ) → a ∈ xs → Standard (ctx a))
    (parked : (a : ℕ) → a ∈ xs → Parked c.mem g.tasks (ctx a) a) (known : g.current ∈ xs)
    (ran : Ran xs lo hi c g d k) where
  pub after : ℕ → Context
  after a = if a == g.current then entered d else ctx a

  pub after_self : after g.current ≡ entered d
  unfolding after
  after_self = rw (==_self g.current) refl

  pub after_ne : (a : ℕ) → a ≢ g.current → after a ≡ ctx a
  unfolding after
  after_ne a ne = rw (==-false_of_ne a g.current ne) refl

  -- What holds of the thread that ran and of each other thread holds of all.
  after_all :
      (P : ℕ → Context → Type 0)
      → P g.current (entered d)
      → ((a : ℕ) → a ∈ xs → a ≢ g.current → P a (ctx a))
      → (a : ℕ) → a ∈ xs
      → P a (after a)
  unfolding after
  after_all P here there a i = elim (Bool-cases (a == g.current)) [
    | inl e ↦ rw (e, eq_of_== a g.current e) here
    | inr n ↦ rw n (there a i (ne_of_== a g.current n))
  ]

  still_parked : (a : ℕ) → a ∈ xs → a ≢ g.current → Parked d.mem k.tasks (ctx a) a
  still_parked a i ne =
      let (at, kept) = parked a i in
      rw (ran.sps a) (
        at,
        HasWords-agree c.mem d.mem (g.tasks a).sp (words (ctx a))
            (λ j ge lt. ran.writes j (
              in_own_stack _ _ _ _ _ _ j (own.room a i) (own.top a i)
                (own.apart a g.current i known ne) at ge lt))
            kept,
      )

  after-OwnStacks : OwnStacks xs after lo hi
  after-OwnStacks = record {
    room = after_all (λ a x. lo a + 36 ≤ x.psp) ran.room (λ a i ne. own.room a i);
    top = after_all (λ a x. x.psp ≤ hi a) ran.top (λ a i ne. own.top a i);
    small = own.small;
    apart = own.apart;
  }

  pub ran-IsOwned : IsOwned d k xs after lo hi
  unfolding after
  ran-IsOwned = record {
    stacks = after-OwnStacks;
    current = ap after ran.same ∙ after_self;
    parked = λ a i ne.
        let ne' : a ≢ g.current = λ q. ne (q ∙ sym ran.same) in
        subst (λ x. Parked d.mem k.tasks x a) (sym (after_ne a ne')) (still_parked a i ne');
    standard = after_all (λ a x. Standard x) ran.standard (λ a i ne. standard a i);
    no_fpca = ran.no_fpca;
  }
