-- ===== src/Sync/Drain.antt =====
-- The loop of `Condvar::notify_all` and `Once::call_once` that wakes each waiter.
use kangaroos.Base.{
  ℕ, zero, suc, ◌≤◌, ◌<◌, ◌≡◌, ◌≢◌, refl, sym, ap, ◌∙◌, Bool, true, false, ◌||◌, ◌⊎◌, inl, inr,
  List, [], ◌∷◌, ◌∈◌, ◌∉◌, has, has-append, length, length-append, arith, ◌==◌, ltb, if◌then◌else◌,
  ==-false_of_ne, Bool-cases, eq_of_==, ne_of_==,
}
use kangaroos.Run.{Run, ok, out_of_fuel, ◌>>=◌}
use kangaroos.Tcb.{Ptr, null, Tcb, ready}
use kangaroos.Kernel.{Kernel}
use kangaroos.WaitList.{wait_list_pop_highest}
use kangaroos.WaitList.Links.{first, Links}
use kangaroos.WaitList.Pop.{prio}
use kangaroos.Scheduler.{unblock}
use kangaroos.Sync.Handover.{HandsOver, HandsOver-prio, wakes}

-- The flag that asks for a context switch, and the kernel. The fuel also bounds the pops.
unfoldable pub drain : ℕ → Bool → Kernel → (head : Ptr) → Run (Bool × Kernel)
drain zero preempt k head = out_of_fuel
drain (suc f) preempt k head = if head == null then ok (preempt, k) else do
  (tcb, head', h) ← wait_list_pop_highest f k.tasks head
  (need, k') ← unblock (record k { tasks = h }) tcb
  drain f (preempt || need) k' head'

-- Each waiter is ready with a full time slice, no other task has changed. The flag is set if it was, or
-- if a waiter has a higher priority than the current task, and only then.
pub record Drained (p : Bool) (k : Kernel) (xs : List ℕ) (q : Bool) (g : Kernel) : Type 0 where
  pub woken :
      (a : ℕ) → a ∈ xs → g.tasks a ≡ record (k.tasks a) { state = ready (k.tasks a).time_slice }
  pub others : (a : ℕ) → a ∉ xs → g.tasks a ≡ k.tasks a
  pub quiet : q ≡ false → (p ≡ false) × ((a : ℕ) → a ∈ xs → prio k.tasks k.current ≤ prio k.tasks a)
  pub cause :
      q ≡ true → (p ≡ true) ⊎ ((a : ℕ) × (a ∈ xs) × (prio k.tasks a < prio k.tasks k.current))
  pub current : g.current ≡ k.current
  pub tick : g.tick ≡ k.tick
  pub all_tasks : g.all_tasks ≡ k.all_tasks
  pub pendsv : g.pendsv ≡ k.pendsv

-- One round: the loop goes on with the waiters that `h` leaves.
module _ (k g : Kernel) (xs : List ℕ) (b : ℕ) (rest : List ℕ) (h : HandsOver k xs b rest g) where
  mem-rest : (a : ℕ) → has a xs ≡ ((a == b) || has a rest)
  mem-rest a = ground (
    arith,
    ap (has a) h.picked.split,
    ap (has a) h.remaining,
    has-append a h.picked.before (b ∷ h.picked.after),
    has-append a h.picked.before h.picked.after,
  )

  length-rest : length xs ≡ suc (length rest)
  length-rest = omega (
    arith,
    ap length h.picked.split,
    ap length h.remaining,
    length-append h.picked.before (b ∷ h.picked.after),
    length-append h.picked.before h.picked.after,
  )

  Drained-next :
      (p q : Bool) (j : Kernel)
      → Drained (p || ltb (prio k.tasks b) (prio k.tasks k.current)) g rest q j
      → Drained p k xs q j
  Drained-next p q j d = record {
    woken = λ a m. elim (Bool-cases (a == b)) [
      | inl e ↦
          d.others a (ground (arith, eq_of_== a b e, h.gone))
          ∙ ap (λ c. g.tasks c) (eq_of_== a b e)
          ∙ h.awake
          ∙ ap (λ c. record (k.tasks c) { state = ready (k.tasks c).time_slice })
              (sym (eq_of_== a b e))
      | inr n ↦
          d.woken a (ground (arith, mem-rest a))
          ∙ ap (λ (t : Tcb). record t { state = ready t.time_slice }) (h.same a)
    ];
    others = λ a out.
        d.others a (ground (arith, mem-rest a))
        ∙ h.kept a (ground (arith, mem-rest a)) (ne_of_== a b (ground (arith, mem-rest a)));
    quiet = λ e.
        let (flag, least) = d.quiet e in
        (
          ground arith,
          λ a m. elim (Bool-cases (a == b)) [
            | inl s ↦ ground (arith, eq_of_== a b s)
            | inr n ↦
                let le = least a (ground (arith, mem-rest a)) in
                omega (
                  arith,
                  le,
                  HandsOver-prio k g xs b rest h a,
                  HandsOver-prio k g xs b rest h g.current,
                  ap (prio k.tasks) h.current,
                )
          ],
        );
    cause = λ e. elim (d.cause e) [
      | inl flag ↦ elim (Bool-cases p) [
        | inl s ↦ inl s
        | inr n ↦ inr (b, ground (arith, mem-rest b), ground arith)
      ]
      | inr (a, m, lt) ↦ inr (
        a,
        ground (arith, mem-rest a),
        omega (
          arith,
          lt,
          HandsOver-prio k g xs b rest h a,
          HandsOver-prio k g xs b rest h g.current,
          ap (prio k.tasks) h.current,
        ),
      )
    ];
    current = d.current ∙ h.current;
    tick = d.tick ∙ h.tick;
    all_tasks = d.all_tasks ∙ h.all_tasks;
    pendsv = d.pendsv ∙ h.pendsv;
  }

-- The loop ends without a fault.
pub drain_lem :
    (f : ℕ) (p : Bool) (k : Kernel) (xs : List ℕ)
    → Links k.tasks xs
    → k.current ≢ null
    → length xs < f
    → (q : Bool) × (g : Kernel) × (drain f p k (first xs) ≡ ok (q, g)) × Drained p k xs q g
unfolding drain
drain_lem zero p k xs l running fuel = absurd (omega arith)
drain_lem (suc f) p k [] l running fuel = (
  p,
  k,
  refl,
  record {
    woken = λ a m. absurd (ground arith);
    others = λ a out. refl;
    quiet = λ e. (e, λ a m. absurd (ground arith));
    cause = λ e. inl e;
    current = refl;
    tick = refl;
    all_tasks = refl;
    pendsv = refl;
  },
)
drain_lem (suc f) p k (x ∷ xs) l running fuel =
    let w = wakes f k x xs l running (omega arith) in
    let short = length-rest k w.kernel (x ∷ xs) w.task w.rest w.hands in
    let (q, g, returns, d) =
      drain_lem f (p || ltb (prio k.tasks w.task) (prio k.tasks k.current)) w.kernel w.rest
        w.hands.links (λ e. running (sym w.hands.current ∙ e)) (omega arith) in
    (
      q,
      g,
      rw (==-false_of_ne x 0 l.0, w.pops, w.unblocks) returns,
      Drained-next k w.kernel (x ∷ xs) w.task w.rest w.hands p q g d,
    )
