-- ===== src/Macros/Laws.antt =====
-- From the attribute to the task: `task` of kangaroos-macros/src/lib.rs behind `spawn_into` of
-- kangaroos/src/task.rs.
use Prim.Native.String.{String}
use kangaroos.Base.{
  ℕ, ◌+◌, ◌*◌, ◌/◌, ◌%◌, ◌^◌, ◌≡◌, ◌≢◌, ◌≤◌, ◌<◌, ◌⊎◌, inl, inr, refl, sym, ap, subst, ◌∙◌, Bool,
  List, [], ◌∷◌, ◌++◌, length, arith, ◌∉◌,
}
use kangaroos.Run.{Run, panic}
use kangaroos.Tcb.{null}
use kangaroos.Kernel.{Kernel}
use kangaroos.Boot.{SpawnToken, spawn}
use kangaroos.Boot.Tokens.{Apart, AllTokens, tcbs, Booted}
use kangaroos.Boot.Spawn.{spawn_into_lem, spawn_into-panic}
use kangaroos.Macros.{Syn, ok}
use kangaroos.Macros.Args.{TaskArgs, or_parsed}
use kangaroos.Macros.Print.{
  Writer, Reads, Setting, write_settings, priority_of, stack_size_of, time_slice_of, name_of,
  last_of,
}
use kangaroos.Macros.RoundTrip.{parse_task_args-write_settings}
use kangaroos.Macros.Expand.{
  ItemFn, Factory, Expansion, factory_of, expansion_of, params_of, expand_task, task,
}
use kangaroos.Macros.Factory.{Place, token, write_all, entry, Params}

-- The stack of a task, in bytes, overlaps no other.
abbrev pub ClearOf : (stack size : ℕ) → SpawnToken → Type 0
ClearOf stack size u = (stack + size ≤ u.stack_ptr) ⊎ (u.stack_ptr + 4 * u.stack_len ≤ stack)

words_of : (n : ℕ) → n < 2 ^ 32 → (n % 2 ^ 32) / 4 ≡ n / 4
words_of n small = omega arith

short_stack : (n : ℕ) → n < 84 → n / 4 < 21
short_stack n h = omega arith

long_stack : (n : ℕ) → 84 ≤ n → 21 ≤ n / 4
long_stack n h = omega arith

whole_words : (p n q : ℕ) → p + n ≤ q → p + 4 * (n / 4) ≤ q
whole_words p n q h = omega arith

all-Apart :
    (t : SpawnToken) (n : ℕ) (ts : List SpawnToken)
    → t.stack_len ≡ n / 4
    → AllTokens (ClearOf t.stack_ptr n) ts
    → AllTokens (Apart t) ts
all-Apart t n [] e clear = tt
all-Apart t n (u ∷ us) e clear = (
  elim clear.0 [
    | inl h ↦ inl (
        subst (λ l. t.stack_ptr + 4 * l ≤ u.stack_ptr) (sym e)
          (whole_words t.stack_ptr n u.stack_ptr h))
    | inr h ↦ inr h
  ],
  all-Apart t n us e clear.1,
)

-- A token whose stack was given in bytes.
spawn-bytes :
    (exit_lr : ℕ) (t : SpawnToken) (n : ℕ) (ts : List SpawnToken) (m : ℕ → ℕ) (k : Kernel)
    → t.stack_len ≡ n / 4
    → Booted exit_lr ts m k
    → t.tcb_ptr ≢ null
    → t.tcb_ptr ∉ tcbs ts
    → AllTokens (ClearOf t.stack_ptr n) ts
    → (n < 84 → spawn exit_lr t (m, k) ≡ panic)
      × (84 ≤ n
          → (m' : ℕ → ℕ) × (k' : Kernel) × (spawn exit_lr t (m, k) ≡ Run.ok (m', k'))
            × Booted exit_lr (t ∷ ts) m' k')
spawn-bytes exit_lr t n ts m k e s nn new clear = (
  λ short. spawn_into-panic exit_lr t m k (subst (λ l. l < 21) (sym e) (short_stack n short)),
  λ long.
      let room = subst (λ l. 21 ≤ l) (sym e) (long_stack n long) in
      let (m', k', returns, booted, _) =
        spawn_into_lem exit_lr t ts m k s (nn, new, room, all-Apart t n ts e clear) in
      (m', k', returns, booted),
)

module _ (S Expr LitStr Pat Ty Block : Type 0) (syn : Syn S Expr LitStr) (w : Writer S Expr LitStr)
    (reads : Reads S Expr LitStr syn w) (upper : String → String) (lit_str : String → LitStr)
    (value : Expr → ℕ) (text : LitStr → String) where
  -- The token of an expansion.
  pub IsTokenOf : TaskArgs Expr LitStr → Place → SpawnToken → Type 0
  IsTokenOf args place t =
      (t.tcb_ptr ≡ place.tcb)
      × (t.stack_ptr ≡ place.stack)
      × (t.entry ≡ place.entry)
      × (t.stack_len ≡ (value args.stack_size % 2 ^ 32) / 4)
      × (t.priority ≡ value args.priority % 2 ^ 8)
      × (t.time_slice ≡ value args.time_slice % 2 ^ 8)

  token-expansion_of :
      (i : Factory Expr LitStr Pat Ty Block) (params_ident entry_ident : String)
      (ps : List (Pat × Ty)) (place : Place)
      → token Expr LitStr Pat Ty Block value text
          (factory_of (expansion_of i params_ident entry_ident ps))
          place
        ≡ token Expr LitStr Pat Ty Block value text i place
  unfolding token
  token-expansion_of i params_ident entry_ident [] place = refl
  token-expansion_of i params_ident entry_ident (_ ∷ _) place = refl

  expand_task-IsTokenOf :
      (args : TaskArgs Expr LitStr) (func : ItemFn Pat Ty Block) (place : Place)
      → IsTokenOf args place (
          token Expr LitStr Pat Ty Block value text
            (factory_of (expand_task S Expr LitStr Pat Ty Block syn upper lit_str args func))
            place)
  unfolding IsTokenOf expand_task token
  expand_task-IsTokenOf args func place =
      subst (IsTokenOf args place) (sym (token-expansion_of _ _ _ (params_of func.inputs) place))
        (refl, refl, refl, refl, refl, refl)

  -- Attributes that are written with commas between them expand to a factory. For a stack of less than 84
  -- bytes, the spawn of the factory's token panics. Otherwise, where the task's storage is new and its stack
  -- overlaps no other, it gives a task that is ready with its initial frame, and the token has the last
  -- priority and time slice that are given, or the default, modulo 256, and a quarter of the last stack size.
  pub task-spawns :
      (fuel : ℕ) (trailing : Bool) (xs : List (Setting Expr LitStr)) (func : ItemFn Pat Ty Block)
      (p n t : Expr) (place : Place) (exit_lr : ℕ) (ts : List SpawnToken) (m : ℕ → ℕ) (k : Kernel)
      → length xs < fuel
      → or_parsed S Expr LitStr syn (last_of priority_of xs) "0" ≡ ok p
      → or_parsed S Expr LitStr syn (last_of stack_size_of xs) "512usize" ≡ ok n
      → or_parsed S Expr LitStr syn (last_of time_slice_of xs) "10" ≡ ok t
      → value n < 2 ^ 32
      → Booted exit_lr ts m k
      → place.tcb ≢ null
      → place.tcb ∉ tcbs ts
      → AllTokens (ClearOf place.stack (value n)) ts
      → (x : Expansion Expr LitStr Pat Ty Block) × (u : SpawnToken) × (task S Expr LitStr Pat Ty
            Block syn upper lit_str fuel
            (write_settings S Expr LitStr w trailing xs)
            func
          ≡ ok x)
        × (token Expr LitStr Pat Ty Block value text (factory_of x) place ≡ u)
        × (value n < 84 → spawn exit_lr u (m, k) ≡ panic)
        × (84 ≤ value n
            → (m' : ℕ → ℕ) × (k' : Kernel) × (spawn exit_lr u (m, k) ≡ Run.ok (m', k'))
              × Booted exit_lr (u ∷ ts) m' k')
        × (u.stack_len ≡ value n / 4)
        × (u.priority ≡ value p % 2 ^ 8)
        × (u.time_slice ≡ value t % 2 ^ 8)
  unfolding task IsTokenOf
  task-spawns fuel trailing xs func p n t place exit_lr ts m k enough ep en et small s nn new
        clear =
      let args : TaskArgs Expr LitStr = record {
        priority = p;
        stack_size = n;
        time_slice = t;
        name = last_of name_of xs;
      } in
      let x = expand_task S Expr LitStr Pat Ty Block syn upper lit_str args func in
      let u = token Expr LitStr Pat Ty Block value text (factory_of x) place in
      let (own, at, _, words, prio, slice) = expand_task-IsTokenOf args func place in
      let len = words ∙ words_of (value n) small in
      let (short, long) =
        spawn-bytes exit_lr u (value n) ts m k len s (λ e. nn (sym own ∙ e))
          (subst (λ a. a ∉ tcbs ts) (sym own) new)
          (subst (λ a. AllTokens (ClearOf a (value n)) ts) (sym at) clear) in
      (
        x,
        u,
        rw
            (parse_task_args-write_settings S Expr LitStr syn w reads fuel trailing xs p n t enough
              ep en et)
            refl,
        refl,
        short,
        long,
        len,
        prio,
        slice,
      )

write_all-append :
    {P : Type 0} (ps : List P) (p : P) (st : Params P)
    → write_all (ps ++ (p ∷ [])) st ≡ write_all (p ∷ []) st
unfolding write_all
write_all-append [] p st = refl
write_all-append (q ∷ ps) p st = write_all-append ps p _

-- However often the factory is called, the thread runs with the parameters of its last call.
pub entry-write_all :
    {P A : Type 0} (impl : P → Run A) (ps : List P) (p : P) (st : Params P)
    → entry impl (write_all (ps ++ (p ∷ [])) st) ≡ impl p
unfolding write_all
entry-write_all impl ps p st = ap (entry impl) (write_all-append ps p st)
