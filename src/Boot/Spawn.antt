-- ===== src/Boot/Spawn.antt =====
-- What `spawn_into` makes of a token.
use kangaroos.Base.{
  ℕ, ◌+◌, ◌-◌, ◌*◌, ◌≡◌, ◌≢◌, ◌≤◌, ◌<◌, ◌⊎◌, inl, inr, refl, ap, ◌∙◌, true, false, List, [], ◌∷◌,
  ◌++◌, ◌==◌, ltb, ==-false_of_ne, ne_of_==, eq_of_==, Bool-cases, arith, ◌∈◌, ◌∉◌,
}
use kangaroos.Run.{ok, panic}
use kangaroos.Tcb.{null, Tcb, ready, load, write, write_self, write_ne}
use kangaroos.Kernel.{Kernel}
use kangaroos.Scheduler.Chain.{Chain}
use kangaroos.Scheduler.Launch.{IsSpawned}
use kangaroos.Arch.Cpu.{HasWords}
use kangaroos.Arch.Words.{HasWords-agree}
use kangaroos.Arch.Stub.{words}
use kangaroos.Arch.Frame.{canary_check}
use kangaroos.Arch.Frame.Laws.{
  initial, hardware_words, top_of_frame, stack_init_lem, stack_init-panic, canary_init_lem,
  canary_init-short, canary_check-agree,
}
use kangaroos.Boot.{SpawnToken, stack_of, spawn_into}
use kangaroos.Boot.Tokens.{IsFresh, Apart, AllTokens, tcbs, Fits, Booted}

notin_cons : (p x : ℕ) (xs : List ℕ) → p ∉ x ∷ xs → (x ≢ p) × (p ∉ xs)
notin_cons p x xs out = ground arith

in_tail : (a p : ℕ) (xs : List ℕ) → a == p ≡ false → a ∈ p ∷ xs → a ∈ xs
in_tail a p xs n i = ground arith

module _ (exit_lr : ℕ) (m : ℕ → ℕ) (k : Kernel) (t : SpawnToken) (room : 21 ≤ t.stack_len)
    (nn : t.tcb_ptr ≢ null) where
  unfoldable pub tcb_of : Tcb
  tcb_of = record (k.tasks t.tcb_ptr) {
    sp = top_of_frame (stack_of t);
    state = ready t.time_slice;
    priority = t.priority;
    base_priority = t.priority;
    time_slice = t.time_slice;
    stack_base = t.stack_ptr;
    name = t.name;
    wait_ptr = 0;
    all_next = k.all_tasks;
  }

  unfoldable pub with_task : Kernel
  with_task = record k { tasks = write k.tasks t.tcb_ptr tcb_of; all_tasks = t.tcb_ptr }

  below : (n p j : ℕ) → 21 ≤ n → j < p + 16 → j < p + 4 * (n - 17)
  below n p j r lt = omega arith

  outside :
      (n p j : ℕ)
      → 21 ≤ n
      → (j < p) ⊎ (p + 4 * n ≤ j)
      → ((j < p) ⊎ (p + 16 ≤ j)) × ((j < p + 4 * (n - 17)) ⊎ (p + 4 * n ≤ j))
  outside n p j r (inl lt) = (inl lt, inl (omega arith))
  outside n p j r (inr ge) = (inr (omega arith), inr ge)

  pub spawn_memory :
      (m' : ℕ → ℕ) × (spawn_into exit_lr t (m, k) ≡ ok (m', with_task))
      × HasWords m'
          (top_of_frame (stack_of t))
          (words (initial (stack_of t)) ++ hardware_words exit_lr t.entry)
      × (canary_check m' t.stack_ptr ≡ true)
      × ((j : ℕ) → (j < t.stack_ptr) ⊎ (t.stack_ptr + 4 * t.stack_len ≤ j) → m' j ≡ m j)
  unfolding spawn_into with_task tcb_of load
  spawn_memory =
      let (m₁, first_step, good, kept) = canary_init_lem m (stack_of t) (omega (arith, room)) in
      let (m₂, second_step, frame, kept') = stack_init_lem exit_lr m₁ (stack_of t) t.entry room in
      (
        m₂,
        rw (first_step, second_step, ==-false_of_ne t.tcb_ptr 0 nn) refl,
        frame,
        canary_check-agree m₁ m₂ t.stack_ptr
              (λ j ge lt. kept' j (inl (below t.stack_len t.stack_ptr j room lt)))
            ∙ good,
        λ j out. let (o, o') = outside t.stack_len t.stack_ptr j room out in kept' j o' ∙ kept j o,
      )

  pub new_task : with_task.tasks t.tcb_ptr ≡ tcb_of
  unfolding with_task
  new_task = write_self k.tasks t.tcb_ptr tcb_of

  pub other_task : (a : ℕ) → a ≢ t.tcb_ptr → with_task.tasks a ≡ k.tasks a
  unfolding with_task
  other_task a ne = write_ne k.tasks t.tcb_ptr tcb_of a ne

  with_task-Chain : (xs : List ℕ) → t.tcb_ptr ∉ xs → Chain k.tasks xs → Chain with_task.tasks xs
  with_task-Chain [] out c = tt
  with_task-Chain (x ∷ xs) out c =
      let (ne, out') = notin_cons t.tcb_ptr x xs out in
      (c.0, c.1, ap (λ u. u.all_next) (other_task x ne) ∙ c.2, with_task-Chain xs out' c.3)

  with_task-IsSpawned :
      (xs : List ℕ) → t.tcb_ptr ∉ xs → IsSpawned k xs → IsSpawned with_task (t.tcb_ptr ∷ xs)
  unfolding with_task tcb_of
  with_task-IsSpawned xs out s = record {
    chain = (nn, out, ap (λ u. u.all_next) new_task ∙ s.head, with_task-Chain xs out s.chain);
    head = refl;
    idle = λ a i. elim (Bool-cases (a == t.tcb_ptr)) [
      | inl e ↦ rw (eq_of_== a t.tcb_ptr e, new_task) refl
      | inr n ↦ rw (other_task a (ne_of_== a t.tcb_ptr n)) (s.idle a (in_tail a t.tcb_ptr xs n i))
    ];
  }

  -- A word of another stack.
  other_word :
      (u : SpawnToken)
      → Apart t u
      → (j : ℕ) → u.stack_ptr ≤ j
      → j < u.stack_ptr + 4 * u.stack_len
      → (j < t.stack_ptr) ⊎ (t.stack_ptr + 4 * t.stack_len ≤ j)
  other_word u (inl q) j ge lt = inr (omega arith)
  other_word u (inr q) j ge lt = inl (omega arith)

  in_frame :
      (p n j : ℕ)
      → 21 ≤ n
      → p + 4 * (n - 17) ≤ j
      → j < p + 4 * (n - 17) + 4 * 17
      → (p ≤ j) × (j < p + 4 * n)
  in_frame p n j r ge lt = omega arith

  in_canary : (p n j : ℕ) → 21 ≤ n → j < p + 16 → j < p + 4 * n
  in_canary p n j r lt = omega arith

  -- The tasks of the earlier tokens stay as they are.
  still-IsFresh :
      (m' : ℕ → ℕ) (u : SpawnToken)
      → ((j : ℕ) → (j < t.stack_ptr) ⊎ (t.stack_ptr + 4 * t.stack_len ≤ j) → m' j ≡ m j)
      → u.tcb_ptr ≢ t.tcb_ptr
      → Apart t u
      → IsFresh exit_lr m k u
      → IsFresh exit_lr m' with_task u
  still-IsFresh m' u kept ne apart fresh =
      let same = other_task u.tcb_ptr ne in
      let agree = λ (j : ℕ) (ge : u.stack_ptr ≤ j) (lt : j < u.stack_ptr + 4 * u.stack_len).
        kept j (other_word u apart j ge lt) in
      record {
        state = ap (λ c. c.state) same ∙ fresh.state;
        priority = ap (λ c. c.priority) same ∙ fresh.priority;
        base_priority = ap (λ c. c.base_priority) same ∙ fresh.base_priority;
        time_slice = ap (λ c. c.time_slice) same ∙ fresh.time_slice;
        stack_base = ap (λ c. c.stack_base) same ∙ fresh.stack_base;
        sp = ap (λ c. c.sp) same ∙ fresh.sp;
        frame =
            HasWords-agree m m' (top_of_frame (stack_of u))
              (words (initial (stack_of u)) ++ hardware_words exit_lr u.entry)
              (λ j ge lt.
                let (ge', lt') = in_frame u.stack_ptr u.stack_len j fresh.room ge lt in
                agree j ge' lt')
              fresh.frame;
        canary =
            canary_check-agree m m' u.stack_ptr
              (λ j ge lt. agree j ge (in_canary u.stack_ptr u.stack_len j fresh.room lt))
            ∙ fresh.canary;
        room = fresh.room;
      }

  all_still-IsFresh :
      (m' : ℕ → ℕ) (us : List SpawnToken)
      → ((j : ℕ) → (j < t.stack_ptr) ⊎ (t.stack_ptr + 4 * t.stack_len ≤ j) → m' j ≡ m j)
      → t.tcb_ptr ∉ tcbs us
      → AllTokens (Apart t) us
      → AllTokens (IsFresh exit_lr m k) us
      → AllTokens (IsFresh exit_lr m' with_task) us
  all_still-IsFresh m' [] kept out apart fresh = tt
  all_still-IsFresh m' (u ∷ us) kept out apart fresh =
      let (ne, out') = notin_cons t.tcb_ptr u.tcb_ptr (tcbs us) out in
      (
        still-IsFresh m' u kept ne apart.0 fresh.0,
        all_still-IsFresh m' us kept out' apart.1 fresh.1,
      )

  new-IsFresh :
      (m' : ℕ → ℕ)
      → HasWords m'
          (top_of_frame (stack_of t))
          (words (initial (stack_of t)) ++ hardware_words exit_lr t.entry)
      → canary_check m' t.stack_ptr ≡ true
      → IsFresh exit_lr m' with_task t
  unfolding tcb_of
  new-IsFresh m' frame good = record {
    state = ap (λ c. c.state) new_task;
    priority = ap (λ c. c.priority) new_task;
    base_priority = ap (λ c. c.base_priority) new_task;
    time_slice = ap (λ c. c.time_slice) new_task;
    stack_base = ap (λ c. c.stack_base) new_task;
    sp = ap (λ c. c.sp) new_task;
    frame = frame;
    canary = good;
    room = room;
  }

-- A token that fits is spawned: the new task is ready with its initial frame and its canary, at the head of
-- the list of all tasks, and those spawned before stay as they are.
pub spawn_into_lem :
    (exit_lr : ℕ) (t : SpawnToken) (ts : List SpawnToken) (m : ℕ → ℕ) (k : Kernel)
    → Booted exit_lr ts m k
    → Fits t ts
    → (m' : ℕ → ℕ) × (k' : Kernel) × (spawn_into exit_lr t (m, k) ≡ ok (m', k'))
      × Booted exit_lr (t ∷ ts) m' k'
      × (k'.current ≡ k.current)
unfolding with_task
spawn_into_lem exit_lr t ts m k s (nn, out, room, apart) =
    let (m', returns, frame, good, kept) = spawn_memory exit_lr m k t room nn in
    (
      m',
      with_task exit_lr m k t room nn,
      returns,
      record {
        spawned = with_task-IsSpawned exit_lr m k t room nn (tcbs ts) out s.spawned;
        fresh = (
          new-IsFresh exit_lr m k t room nn m' frame good,
          all_still-IsFresh exit_lr m k t room nn m' ts kept out apart s.fresh,
        );
      },
      refl,
    )

-- A stack below 21 words is refused.
pub spawn_into-panic :
    (exit_lr : ℕ) (t : SpawnToken) (m : ℕ → ℕ) (k : Kernel)
    → t.stack_len < 21
    → spawn_into exit_lr t (m, k) ≡ panic
unfolding spawn_into
spawn_into-panic exit_lr t m k short = elim (Bool-cases (ltb t.stack_len 4)) [
  | inl e ↦ rw (canary_init-short m (stack_of t) (ground arith)) refl
  | inr n ↦
      let (m₁, first_step, _, _) = canary_init_lem m (stack_of t) (ground arith) in
      rw (first_step, stack_init-panic exit_lr m₁ (stack_of t) t.entry short) refl
]
