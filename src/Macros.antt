-- ===== src/Macros.antt =====
-- The attribute macros of kangaroos-macros/src/lib.rs: how `#[task]` and `#[main]` read their arguments.
-- `syn` is a parameter: the streams of tokens and what it reads off them.
pub mod Args
pub mod Print
pub mod RoundTrip
pub mod Refuse
pub mod Expand
pub mod Factory
pub mod Laws
mod Tests
use Prim.Native.String.{String}
use text.Mathlib.Text
use kangaroos.Base.{ℕ, zero, suc, Bool, Option, none, some, if◌then◌else◌}

-- What the parsers call of a `ParseStream` over the streams `S`: a call that reads gives what is left, and
-- `none` is an error of `syn`, which leaves the stream as it was. `parse_str` reads an expression off a text.
pub record Syn (S Expr LitStr : Type 0) : Type 0 where
  pub is_empty : S → Bool
  pub ident : S → Option (String × S)
  pub equals : S → Option S
  pub expr : S → Option (Expr × S)
  pub lit_str : S → Option (LitStr × S)
  pub comma : S → Option S
  pub parse_str : String → Option Expr

-- `syn::Error`: one that `syn` made, or one of the messages of this file.
pub data Error : Type 0 where
  rejected : Error
  unknown_key : String → Error
  cpu_hz_required : Error
  spawner_required : Error

-- The outcome of a macro: `panic` is an `unwrap` that fails, and `out_of_fuel` has no counterpart.
pub data Parsed (A : Type 0) : Type 0 where
  ok : A → Parsed A
  err : Error → Parsed A
  panic : Parsed A
  out_of_fuel : Parsed A

infixl 5 ◌>>=◌
abbrev pub ◌>>=◌ : {A B : Type 0} → Parsed A → (A → Parsed B) → Parsed B
ok a >>= f = f a
err e >>= f = err e
panic >>= f = panic
out_of_fuel >>= f = out_of_fuel

-- `input.parse()?`.
abbrev pub ask : {A : Type 0} → Option A → Parsed A
ask (some a) = ok a
ask none = err rejected

-- `unwrap`.
abbrev pub unwrap : {A : Type 0} → Option A → Parsed A
unwrap (some a) = ok a
unwrap none = panic

infix 50 ◌is◌
abbrev pub ◌is◌ : String → String → Bool
key is word = Text.◌==◌ key word
