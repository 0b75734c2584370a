-- ===== src/Arch/Rounds.antt =====
-- Many context switches: what a thread finds when it runs again, whatever the others did between.
use kangaroos.Base.{
  ℕ, ◌+◌, ◌-◌, ◌≡◌, ◌≢◌, ◌≤◌, ◌<◌, ◌⊎◌, inl, inr, List, ◌∈◌, length, refl, sym, ap, subst, ◌∙◌,
  arith,
}
use kangaroos.Run.{ok, ok-injective}
use kangaroos.Kernel.{Kernel}
use kangaroos.Scheduler.Invariant.{IsScheduled}
use kangaroos.Arch.Cpu.{Cpu}
use kangaroos.Arch.Words.{Outside}
use kangaroos.Arch.Stub.{Context, entered, left}
use kangaroos.Arch.Ports.{Port}
use kangaroos.Arch.Threads.{IsOwned}
use kangaroos.Arch.Switch.{pendsv, Resumed, pendsv_lem}
use kangaroos.Arch.Ran.{CanRun, Ran, after, after_ne, ran-IsOwned}

-- An address of the stack of `o` from `p` on is outside a frame that another thread saves.
apart_from :
    (lo_o hi_o lo_b hi_b p_o p_b i : ℕ)
    → lo_o + 36 ≤ p_o
    → (hi_o ≤ lo_b) ⊎ (hi_b ≤ lo_o)
    → lo_b + 36 ≤ p_b
    → p_b ≤ hi_b
    → p_o ≤ i
    → i < hi_o
    → Outside i (p_b - 36) 9 × ((i < lo_b) ⊎ (hi_b ≤ i))
apart_from lo_o hi_o lo_b hi_b p_o p_b i room (inl q) room_b top_b ge lt =
    (inl (omega arith), inl (omega arith))
apart_from lo_o hi_o lo_b hi_b p_o p_b i room (inr q) room_b top_b ge lt =
    (inr (omega arith), inr (omega arith))

above_frame : (l p i : ℕ) → l + 36 ≤ p → p ≤ i → Outside i (p - 36) 9
above_frame l p i room ge = inr (omega arith)

module _ (f : ℕ) (scratch : ℕ → Cpu → Kernel → ℕ) (limit : ℕ → Kernel → ℕ) (port : Port)
    (xs : List ℕ) (lo hi : ℕ → ℕ) (o : ℕ) where
  -- From an entry of `PendSV` to a later one, through rounds in which other threads than `o` run.
  pub data Rounds : Cpu → Kernel → Cpu → Kernel → Type 0 where
    none_yet : {c : Cpu} → {k : Kernel} → Rounds c k c k
    one_more :
        {c : Cpu}
        → {k : Kernel} → {c₁ : Cpu} → {k₁ : Kernel} → {c₂ : Cpu} → {g : Kernel} → {d : Cpu}
        → {k' : Kernel} → Rounds c k c₁ k₁
        → pendsv f scratch limit port xs (c₁, k₁) ≡ ok (c₂, g)
        → g.current ≢ o
        → Ran xs lo hi c₂ g d k'
        → Rounds c k d k'

  -- What the rounds keep for the thread `o` with the registers `x`, which is suspended.
  pub record Keeps (x : Context) (m : ℕ → ℕ) (ctx : ℕ → Context) (d : Cpu) (k : Kernel)
      : Type 0 where
    pub owned : IsOwned d k xs ctx lo hi
    pub scheduled : IsScheduled k xs
    pub can_run : CanRun k xs
    pub registers : ctx o ≡ x
    pub stack : (i : ℕ) → x.psp ≤ i → i < hi o → d.mem i ≡ m i
    pub outside : (i : ℕ) → x.psp ≤ i → i < hi o → Outside i (d.psp - 36) 9

  module _ (fuel : length xs < f) (x : Context) (m : ℕ → ℕ) (o_mem : o ∈ xs) where
    -- What `PendSV` does in such a state.
    switches :
        (ctx : ℕ → Context) (d : Cpu) (k : Kernel) (c : Cpu) (g : Kernel)
        → Keeps x m ctx d k
        → pendsv f scratch limit port xs (d, k) ≡ ok (c, g)
        → Resumed f scratch limit port xs ctx d k c g × IsScheduled g xs
    switches ctx d k c g s e =
        let (i, i_mem, can) = s.can_run in
        let (b, c', g', r, done, again) =
          pendsv_lem f scratch limit port xs d k ctx lo hi s.scheduled fuel s.owned i i_mem can in
        subst (λ st. Resumed f scratch limit port xs ctx d k st.0 st.1 × IsScheduled st.1 xs)
          (ok-injective (c', g') (c, g) (sym r.returns ∙ e)) (r, again)

    kept_stack :
        (ctx : ℕ → Context) (d : Cpu) (k : Kernel) (c : Cpu) (g : Kernel)
        → Keeps x m ctx d k
        → Resumed f scratch limit port xs ctx d k c g
        → (i : ℕ) → x.psp ≤ i
        → i < hi o
        → c.mem i ≡ m i
    kept_stack ctx d k c g s r i ge lt = r.frame i (s.outside i ge lt) ∙ s.stack i ge lt

    one_round :
        (ctx : ℕ → Context) (c₁ : Cpu) (k₁ : Kernel) (c₂ : Cpu) (g : Kernel) (d : Cpu) (k : Kernel)
        → Keeps x m ctx c₁ k₁
        → pendsv f scratch limit port xs (c₁, k₁) ≡ ok (c₂, g)
        → g.current ≢ o
        → Ran xs lo hi c₂ g d k
        → (ctx' : ℕ → Context) × Keeps x m ctx' d k
    one_round ctx c₁ k₁ c₂ g d k s e other ran =
        let (r, sched) = switches ctx c₁ k₁ c₂ g s e in
        let own = s.owned.stacks in
        let apart = λ (i : ℕ) (ge : x.psp ≤ i) (lt : i < hi o).
          apart_from (lo o) (hi o) (lo g.current) (hi g.current) x.psp d.psp i
            (subst (λ y. lo o + 36 ≤ y.psp) s.registers (own.room o o_mem))
            (own.apart o g.current o_mem sched.known (λ q. other (sym q))) ran.room ran.top ge lt in
        (
          after xs lo hi ctx c₂ g d k own s.owned.standard r.parked sched.known ran,
          record {
            owned = ran-IsOwned xs lo hi ctx c₂ g d k own s.owned.standard r.parked sched.known ran;
            scheduled = ran.scheduled;
            can_run = ran.can_run;
            registers =
                after_ne xs lo hi ctx c₂ g d k own s.owned.standard r.parked sched.known ran o
                  (λ q. other (sym q))
                ∙ s.registers;
            stack =
                λ i ge lt. ran.writes i (apart i ge lt).1 ∙ kept_stack ctx c₁ k₁ c₂ g s r i ge lt;
            outside = λ i ge lt. (apart i ge lt).0;
          },
        )

    Rounds-Keeps :
        (c : Cpu) (k : Kernel) (d : Cpu) (k' : Kernel)
        → Rounds c k d k'
        → (ctx : ℕ → Context) → Keeps x m ctx c k
        → (ctx' : ℕ → Context) × Keeps x m ctx' d k'
    Rounds-Keeps c k d k' none_yet ctx s = (ctx, s)
    Rounds-Keeps c k d k' (one_more {c₁ = c₁} {k₁ = k₁} {c₂ = c₂} {g = g} before e other ran) ctx
          s =
        let (ctx₁, s₁) = Rounds-Keeps c k c₁ k₁ before ctx s in
        one_round ctx₁ c₁ k₁ c₂ g d k' s₁ e other ran

-- Where the stacks do not overlap, a thread that `PendSV` suspends finds, when `PendSV` resumes it
-- after any number of rounds in which other threads run, the callee-saved registers, EXC_RETURN and
-- the stack pointer that it had, and the words of its stack from there on; for this each thread writes
-- to its own stack only, leaves room for a frame and has not used the FPU, and some task can run at
-- each switch.
pub pendsv-resumes :
    (f : ℕ) (scratch : ℕ → Cpu → Kernel → ℕ) (limit : ℕ → Kernel → ℕ) (port : Port) (xs : List ℕ)
    (lo hi : ℕ → ℕ) (ctx : ℕ → Context) (c d c' : Cpu) (k k' g : Kernel)
    → length xs < f
    → IsScheduled k xs
    → CanRun k xs
    → IsOwned c k xs ctx lo hi
    → Rounds f scratch limit port xs lo hi k.current c k d k'
    → pendsv f scratch limit port xs (d, k') ≡ ok (c', g)
    → g.current ≡ k.current
    → (left c' ≡ entered c) × ((i : ℕ) → c.psp ≤ i → i < hi k.current → c'.mem i ≡ c.mem i)
pendsv-resumes f scratch limit port xs lo hi ctx c d c' k k' g fuel s can owned rounds e back =
    let o = k.current in
    let at_first : Keeps f scratch limit port xs lo hi o (entered c) c.mem ctx c k = record {
      owned = owned;
      scheduled = s;
      can_run = can;
      registers = owned.current;
      stack = λ i ge lt. refl;
      outside = λ i ge lt.
          above_frame (lo o) c.psp i
            (subst (λ x. lo o + 36 ≤ x.psp) owned.current (owned.stacks.room o s.known)) ge;
    } in
    let (ctx', kept) =
      Rounds-Keeps f scratch limit port xs lo hi o fuel (entered c) c.mem s.known c k d k' rounds
        ctx at_first in
    let (r, _) =
      switches f scratch limit port xs lo hi o fuel (entered c) c.mem s.known ctx' d k' c' g kept
        e in
    (
      r.resumed ∙ ap ctx' back ∙ kept.registers,
      kept_stack f scratch limit port xs lo hi o fuel (entered c) c.mem s.known ctx' d k' c' g kept
          r,
    )
