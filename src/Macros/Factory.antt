-- ===== src/Macros/Factory.antt =====
-- The code that `task` and `main` of kangaroos-macros/src/lib.rs quote, as it runs. `value` is the value that
-- the compiler gives an expression, and `text` that of a string literal; the linker places the storage and
-- the functions.
use Prim.Native.String.{String}
use kangaroos.Base.{ℕ, ◌/◌, ◌%◌, ◌^◌, Option, none, some, List, [], ◌∷◌}
use kangaroos.Run.{Run, uninit_read}
use kangaroos.Tcb.{Ptr}
use kangaroos.Boot.{SpawnToken, new, TaskStorage, tcb_ptr, stack_slice}
use kangaroos.Macros.Expand.{Factory}

-- Where the linker puts the storage of a task, and the function that its thread runs.
pub record Place : Type 0 where
  pub stack : ℕ
  pub tcb : Ptr
  pub entry : ℕ

module _ (Expr LitStr Pat Ty Block : Type 0) (value : Expr → ℕ) (text : LitStr → String) where
  -- `(stack_size as usize) / 4`, with 32 bits.
  abbrev pub stack_words : Expr → ℕ
  stack_words stack_size = (value stack_size % 2 ^ 32) / 4

  abbrev pub storage : Factory Expr LitStr Pat Ty Block → Place → TaskStorage
  storage i place = record { stack = place.stack; n = stack_words i.stack_size; tcb = place.tcb }

  -- The factory of a task without parameters, and the end of that of a task with them.
  unfoldable pub token : Factory Expr LitStr Pat Ty Block → Place → SpawnToken
  token i place =
      let s = storage i place in
      new (tcb_ptr s) (stack_slice s).ptr (stack_slice s).len (value i.priority % 2 ^ 8)
        (value i.time_slice % 2 ^ 8) place.entry (text i.name_str)

-- `MaybeUninit` of the tuple of the parameters.
abbrev pub Params : Type 0 → Type 0
Params P = Option P

-- The write of a factory with parameters, in front of its token.
abbrev pub write_params : {P : Type 0} → P → Params P → Params P
write_params p old = some p

-- The thread of a task with parameters: it reads the static and calls the task's function.
abbrev pub entry : {P A : Type 0} → (impl : P → Run A) → Params P → Run A
entry impl (some p) = impl p
entry impl none = uninit_read

-- The calls that `main` makes of one factory.
unfoldable pub write_all : {P : Type 0} → List P → Params P → Params P
write_all [] st = st
write_all (p ∷ ps) st = write_all ps (write_params p st)
