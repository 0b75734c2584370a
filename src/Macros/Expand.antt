-- ===== src/Macros/Expand.antt =====
-- What `task` and `main` of kangaroos-macros/src/lib.rs put in place of the function: the parts of the
-- quoted code as data. `upper` is `to_uppercase`, and `lit_str` is `LitStr::new`.
use Prim.Native.String.{String, ◌++◌ as ◌<>◌}
use kangaroos.Base.{ℕ, Option, none, some, List, [], ◌∷◌}
use kangaroos.Macros.{Syn, Parsed, ok, err, spawner_required, ◌>>=◌}
use kangaroos.Macros.Args.{TaskArgs, parse_task_args, parse_main_args}

-- `FnArg`, where a receiver is `self`.
pub data FnArg (Pat Ty : Type 0) : Type 0 where
  receiver : FnArg Pat Ty
  typed : Pat → Ty → FnArg Pat Ty

-- The parts of an `ItemFn` that the macros read.
pub record ItemFn (Pat Ty Block : Type 0) : Type 0 where
  pub ident : String
  pub inputs : List (FnArg Pat Ty)
  pub block : Block

-- The patterns and types of the typed arguments.
pub params_of : {Pat Ty : Type 0} → List (FnArg Pat Ty) → List (Pat × Ty)
params_of [] = []
params_of (receiver ∷ args) = params_of args
params_of (typed p t ∷ args) = (p, t) ∷ params_of args

-- What both expansions have: the renamed function, the storage of `(stack_size as usize) / 4` words, and
-- the factory under the name of the function with the arguments of its `SpawnToken::new`.
pub record Factory (Expr LitStr Pat Ty Block : Type 0) : Type 0 where
  pub impl_func : ItemFn Pat Ty Block
  pub storage_ident : String
  pub stack_size : Expr
  pub fn_ident : String
  pub fields : List (Pat × Ty)
  pub priority : Expr
  pub time_slice : Expr
  pub entry : String
  pub name_str : LitStr

-- With parameters there is also the static for them, and the function that reads it and calls the
-- renamed function.
pub data Expansion (Expr LitStr Pat Ty Block : Type 0) : Type 0 where
  plain : Factory Expr LitStr Pat Ty Block → Expansion Expr LitStr Pat Ty Block
  parameterised :
      Factory Expr LitStr Pat Ty Block
      → (params_ident entry_ident : String) → Expansion Expr LitStr Pat Ty Block

abbrev pub factory_of :
    {Expr LitStr Pat Ty Block : Type 0}
    → Expansion Expr LitStr Pat Ty Block
    → Factory Expr LitStr Pat Ty Block
factory_of (plain i) = i
factory_of (parameterised i params_ident entry_ident) = i

-- `if params.is_empty()`: with parameters the token's entry is the generated function.
abbrev pub expansion_of :
    {Expr LitStr Pat Ty Block : Type 0}
    → Factory Expr LitStr Pat Ty Block
    → (params_ident entry_ident : String) → List (Pat × Ty)
    → Expansion Expr LitStr Pat Ty Block
expansion_of factory params_ident entry_ident [] = plain factory
expansion_of factory params_ident entry_ident (_ ∷ _) =
    parameterised (record factory { entry = entry_ident }) params_ident entry_ident

abbrev pub or_name : {LitStr : Type 0} → Option LitStr → LitStr → LitStr
or_name (some l) name = l
or_name none name = name

module _ (S Expr LitStr Pat Ty Block : Type 0) (syn : Syn S Expr LitStr) where
  -- `task` with its arguments read.
  unfoldable pub expand_task :
      (upper : String → String) (lit_str : String → LitStr)
      → TaskArgs Expr LitStr
      → ItemFn Pat Ty Block
      → Expansion Expr LitStr Pat Ty Block
  expand_task upper lit_str args func =
      let impl_ident = "__impl_" <> func.ident in
      let factory : Factory Expr LitStr Pat Ty Block = record {
        impl_func = record func { ident = impl_ident };
        storage_ident = "__STORAGE_" <> upper func.ident;
        stack_size = args.stack_size;
        fn_ident = func.ident;
        fields = params_of func.inputs;
        priority = args.priority;
        time_slice = args.time_slice;
        entry = impl_ident;
        name_str = or_name args.name (lit_str func.ident);
      } in
      expansion_of factory ("__PARAMS_" <> upper func.ident) ("__entry_" <> func.ident)
        (params_of func.inputs)

  -- `task`, for a function that `syn` has read.
  unfoldable pub task :
      (upper : String → String) (lit_str : String → LitStr)
      → (fuel : ℕ) (attr : S) (func : ItemFn Pat Ty Block)
      → Parsed (Expansion Expr LitStr Pat Ty Block)
  task upper lit_str fuel attr func = do
    args ← parse_task_args S Expr LitStr syn fuel attr
    ok (expand_task upper lit_str args func)

-- The body of the new `main`: `let mut spawner: Type = Spawner`, the statements, and `start(cpu_hz)`.
pub record MainFn (Expr Pat Ty Block : Type 0) : Type 0 where
  pub spawner_pat : Pat
  pub spawner_ty : Ty
  pub user_stmts : Block
  pub cpu_hz : Expr

module _ (S Expr LitStr Pat Ty Block : Type 0) (syn : Syn S Expr LitStr) where
  -- The type of the generated binding, without `&`: `reference` gives the type behind a reference.
  abbrev pub spawner_ty_of : (reference : Ty → Option Ty) → Ty → Ty
  spawner_ty_of reference t = elim (reference t) [ some elem ↦ elem | none ↦ t ]

  -- `main`, for a function that `syn` has read.
  unfoldable pub main :
      (reference : Ty → Option Ty) (fuel : ℕ) (attr : S) (func : ItemFn Pat Ty Block)
      → Parsed (MainFn Expr Pat Ty Block)
  main reference fuel attr func = do
    args ← parse_main_args S Expr LitStr syn fuel attr
    elim func.inputs [
      | typed p t ∷ _ ↦ ok (record {
        spawner_pat = p;
        spawner_ty = spawner_ty_of reference t;
        user_stmts = func.block;
        cpu_hz = args.cpu_hz;
      })
      | _ ↦ err spawner_required
    ]
