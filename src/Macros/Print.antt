-- ===== src/Macros/Print.antt =====
-- Attributes as they are written, and what they mean: the reference for the parsers of
-- kangaroos-macros/src/lib.rs.
use Prim.Native.String.{String}
use kangaroos.Base.{◌≡◌, Bool, true, false, Option, none, some, List, [], ◌∷◌, if◌then◌else◌}
use kangaroos.Macros.{Syn}
use kangaroos.Macros.Args.{Given}

-- The keys that the macros know.
pub data Key : Type 0 where
  priority stack_size time_slice name cpu_hz : Key

abbrev pub spelling : Key → String
spelling priority = "priority"
spelling stack_size = "stack_size"
spelling time_slice = "time_slice"
spelling name = "name"
spelling cpu_hz = "cpu_hz"

-- How streams are put together, the first token outside.
pub record Writer (S Expr LitStr : Type 0) : Type 0 where
  pub end : S
  pub key : Key → S → S
  pub equals : S → S
  pub expr : Expr → S → S
  pub lit_str : LitStr → S → S
  pub comma : S → S

-- `syn` reads what was written. An expression ends at a comma or at the end of the attribute.
pub record Reads (S Expr LitStr : Type 0) (syn : Syn S Expr LitStr) (w : Writer S Expr LitStr)
    : Type 0 where
  pub end_is_empty : syn.is_empty w.end ≡ true
  pub end_no_comma : syn.comma w.end ≡ none
  pub key_no_end : (k : Key) (s : S) → syn.is_empty (w.key k s) ≡ false
  pub key_read : (k : Key) (s : S) → syn.ident (w.key k s) ≡ some (spelling k, s)
  pub equals_read : (s : S) → syn.equals (w.equals s) ≡ some s
  pub expr_read_last : (e : Expr) → syn.expr (w.expr e w.end) ≡ some (e, w.end)
  pub expr_read : (e : Expr) (s : S) → syn.expr (w.expr e (w.comma s)) ≡ some (e, w.comma s)
  pub lit_str_read : (l : LitStr) (s : S) → syn.lit_str (w.lit_str l s) ≡ some (l, s)
  pub comma_read : (s : S) → syn.comma (w.comma s) ≡ some s

-- One argument of `#[task]`.
pub data Setting (Expr LitStr : Type 0) : Type 0 where
  set_priority set_stack_size set_time_slice : Expr → Setting Expr LitStr
  set_name : LitStr → Setting Expr LitStr

module _ (S Expr LitStr : Type 0) (w : Writer S Expr LitStr) where
  abbrev pub write_setting : Setting Expr LitStr → S → S
  write_setting (set_priority e) s = w.key priority (w.equals (w.expr e s))
  write_setting (set_stack_size e) s = w.key stack_size (w.equals (w.expr e s))
  write_setting (set_time_slice e) s = w.key time_slice (w.equals (w.expr e s))
  write_setting (set_name l) s = w.key name (w.equals (w.lit_str l s))

  -- The arguments with commas between them, and one behind the last if `trailing`.
  abbrev pub write_settings : (trailing : Bool) → List (Setting Expr LitStr) → S
  write_settings trailing [] = w.end
  write_settings trailing (x ∷ []) = write_setting x (if trailing then w.comma w.end else w.end)
  write_settings trailing (x ∷ y ∷ xs) =
      write_setting x (w.comma (write_settings trailing (y ∷ xs)))

module _ {Expr LitStr : Type 0} where
  abbrev pub priority_of : Setting Expr LitStr → Option Expr
  priority_of (set_priority e) = some e
  priority_of _ = none

  abbrev pub stack_size_of : Setting Expr LitStr → Option Expr
  stack_size_of (set_stack_size e) = some e
  stack_size_of _ = none

  abbrev pub time_slice_of : Setting Expr LitStr → Option Expr
  time_slice_of (set_time_slice e) = some e
  time_slice_of _ = none

  abbrev pub name_of : Setting Expr LitStr → Option LitStr
  name_of (set_name l) = some l
  name_of _ = none

abbrev pub or_else : {A : Type 0} → Option A → Option A → Option A
or_else (some a) b = some a
or_else none b = b

-- The last argument that has a value of this kind.
abbrev pub last_of : {A B : Type 0} → (A → Option B) → List A → Option B
last_of g [] = none
last_of g (x ∷ xs) = or_else (last_of g xs) (g x)

-- What a list of arguments gives, behind those that are given.
abbrev pub given_by :
    {Expr LitStr : Type 0} → List (Setting Expr LitStr) → Given Expr LitStr → Given Expr LitStr
given_by xs g = record {
  priority = or_else (last_of priority_of xs) g.priority;
  stack_size = or_else (last_of stack_size_of xs) g.stack_size;
  time_slice = or_else (last_of time_slice_of xs) g.time_slice;
  name = or_else (last_of name_of xs) g.name;
}
