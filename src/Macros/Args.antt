-- ===== src/Macros/Args.antt =====
-- `TaskArgs` and `MainArgs` of kangaroos-macros/src/lib.rs, and their parsers.
use Prim.Native.String.{String}
use kangaroos.Base.{◌≡◌, refl, ℕ, zero, suc, Option, none, some, if◌then◌else◌}
use kangaroos.Macros.{
  Syn, Parsed, ok, err, out_of_fuel, unknown_key, cpu_hz_required, ◌>>=◌, ask, unwrap, ◌is◌,
}

pub record TaskArgs (Expr LitStr : Type 0) : Type 0 where
  pub priority : Expr
  pub stack_size : Expr
  pub time_slice : Expr
  pub name : Option LitStr

-- The variables of the loop of `TaskArgs::parse`.
pub record Given (Expr LitStr : Type 0) : Type 0 where
  pub priority : Option Expr
  pub stack_size : Option Expr
  pub time_slice : Option Expr
  pub name : Option LitStr

abbrev pub nothing_given : {Expr LitStr : Type 0} → Given Expr LitStr
nothing_given = record { priority = none; stack_size = none; time_slice = none; name = none }

pub record MainArgs (Expr : Type 0) : Type 0 where
  pub cpu_hz : Expr

module _ (S Expr LitStr : Type 0) (syn : Syn S Expr LitStr) where
  -- `let _ = input.parse::<Token![,]>()`: without a comma the stream stays.
  abbrev pub skip_comma : S → S
  skip_comma s = elim (syn.comma s) [ some s' ↦ s' | none ↦ s ]

  pub skip_comma-some : (s s' : S) → syn.comma s ≡ some s' → skip_comma s ≡ s'
  skip_comma-some s s' e = rw (skip_comma, e) refl

  pub skip_comma-none : (s : S) → syn.comma s ≡ none → skip_comma s ≡ s
  skip_comma-none s e = rw (skip_comma, e) refl

  -- The `match` on the key, which reads the value.
  unfoldable pub task_value : String → Given Expr LitStr → S → Parsed (Given Expr LitStr × S)
  task_value key g s =
      if key is "priority"
      then (do (e, s') ← ask (syn.expr s); ok (record g { priority = some e }, s'))
      else if key is "stack_size"
      then (do (e, s') ← ask (syn.expr s); ok (record g { stack_size = some e }, s'))
      else if key is "time_slice"
      then (do (e, s') ← ask (syn.expr s); ok (record g { time_slice = some e }, s'))
      else if key is "name"
      then (do (l, s') ← ask (syn.lit_str s); ok (record g { name = some l }, s'))
      else err (unknown_key key)

  unfoldable pub task_loop : ℕ → Given Expr LitStr → S → Parsed (Given Expr LitStr)
  task_loop zero g s = out_of_fuel
  task_loop (suc f) g s =
      let rest = do
        (key, s₁) ← ask (syn.ident s)
        s₂ ← ask (syn.equals s₁)
        (g', s₃) ← task_value key g s₂
        task_loop f g' (skip_comma s₃)
      in if syn.is_empty s then ok g else rest

  abbrev pub or_parsed : Option Expr → String → Parsed Expr
  or_parsed (some e) text = ok e
  or_parsed none text = unwrap (syn.parse_str text)

  -- The end of `TaskArgs::parse`: `unwrap_or_else` for each number.
  unfoldable pub with_defaults : Given Expr LitStr → Parsed (TaskArgs Expr LitStr)
  with_defaults g = do
    p ← or_parsed g.priority "0"
    n ← or_parsed g.stack_size "512usize"
    t ← or_parsed g.time_slice "10"
    ok (record { priority = p; stack_size = n; time_slice = t; name = g.name })

  -- `TaskArgs::parse`.
  unfoldable pub parse_task_args : ℕ → S → Parsed (TaskArgs Expr LitStr)
  parse_task_args f s = do g ← task_loop f nothing_given s; with_defaults g

  unfoldable pub main_value : String → Option Expr → S → Parsed (Option Expr × S)
  main_value key cpu_hz s =
      if key is "cpu_hz"
      then (do (e, s') ← ask (syn.expr s); ok (some e, s'))
      else err (unknown_key key)

  unfoldable pub main_loop : ℕ → Option Expr → S → Parsed (Option Expr)
  main_loop zero cpu_hz s = out_of_fuel
  main_loop (suc f) cpu_hz s =
      let rest = do
        (key, s₁) ← ask (syn.ident s)
        s₂ ← ask (syn.equals s₁)
        (cpu_hz', s₃) ← main_value key cpu_hz s₂
        main_loop f cpu_hz' (skip_comma s₃)
      in if syn.is_empty s then ok cpu_hz else rest

  abbrev pub required : Option Expr → Parsed (MainArgs Expr)
  required (some e) = ok (record { cpu_hz = e })
  required none = err cpu_hz_required

  -- `MainArgs::parse`.
  unfoldable pub parse_main_args : ℕ → S → Parsed (MainArgs Expr)
  parse_main_args f s = do cpu_hz ← main_loop f none s; required cpu_hz
