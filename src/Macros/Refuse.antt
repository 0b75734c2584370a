-- ===== src/Macros/Refuse.antt =====
-- The loops of the parsers in kangaroos-macros/src/lib.rs end, and a key that they do not know is an error.
use Prim.Native.String.{String}
use text.Mathlib.TextEquality.{eq_iff}
use kangaroos.Base.{
  ℕ, zero, suc, ◌≡◌, ◌≢◌, ◌≤◌, ◌<◌, inl, inr, refl, Bool, true, false, Option, none, some, arith,
  if◌then◌else◌, Bool-cases,
}
use kangaroos.Macros.{
  Syn, Parsed, Error, ok, err, panic, out_of_fuel, unknown_key, ◌>>=◌, ask, unwrap, ◌is◌,
}
use kangaroos.Macros.Args.{
  Given, nothing_given, skip_comma, skip_comma-some, task_value, task_loop, or_parsed,
  with_defaults, parse_task_args, main_value, main_loop, parse_main_args, required,
}
use kangaroos.Macros.Print.{Writer, Reads, cpu_hz}

is-false_of_ne : (key word : String) → key ≢ word → (key is word) ≡ false
is-false_of_ne key word ne = elim (Bool-cases (key is word)) [
  | inl e ↦ absurd (ne ((eq_iff key word).0 e))
  | inr n ↦ n
]

-- What is read off a stream makes it shorter, and a key by at least one token.
pub record Consumes (S Expr LitStr : Type 0) (syn : Syn S Expr LitStr) (size : S → ℕ) : Type 0 where
  pub ident_shorter : (s : S) (k : String) (s' : S) → syn.ident s ≡ some (k, s') → size s' < size s
  pub equals_shorter : (s s' : S) → syn.equals s ≡ some s' → size s' ≤ size s
  pub expr_shorter : (s : S) (e : Expr) (s' : S) → syn.expr s ≡ some (e, s') → size s' ≤ size s
  pub lit_str_shorter :
      (s : S) (l : LitStr) (s' : S) → syn.lit_str s ≡ some (l, s') → size s' ≤ size s
  pub comma_shorter : (s s' : S) → syn.comma s ≡ some s' → size s' ≤ size s

bind_stops :
    {A B : Type 0} (m : Parsed A) (g : A → Parsed B)
    → m ≢ out_of_fuel
    → ((a : A) → m ≡ ok a → g a ≢ out_of_fuel)
    → (m >>= g) ≢ out_of_fuel
bind_stops (ok a) g stops cont = cont a refl
bind_stops (err e) g stops cont = cc
bind_stops panic g stops cont = cc
bind_stops out_of_fuel g stops cont = absurd (stops refl)

ok_stops : {A : Type 0} (a : A) → ok a ≢ out_of_fuel
ok_stops a = cc

ask_stops : {A : Type 0} (o : Option A) → ask o ≢ out_of_fuel
ask_stops (some a) = cc
ask_stops none = cc

unwrap_stops : {A : Type 0} (o : Option A) → unwrap o ≢ out_of_fuel
unwrap_stops (some a) = cc
unwrap_stops none = cc

ask-ok : {A : Type 0} (o : Option A) (a : A) → ask o ≡ ok a → o ≡ some a
ask-ok (some a) b e = cc
ask-ok none b e = cc

if_stops :
    {A : Type 0} (b : Bool) (x y : Parsed A)
    → x ≢ out_of_fuel
    → y ≢ out_of_fuel
    → (if b then x else y) ≢ out_of_fuel
if_stops true x y p q = p
if_stops false x y p q = q

module _ (S Expr LitStr : Type 0) (syn : Syn S Expr LitStr) (size : S → ℕ)
    (consumes : Consumes S Expr LitStr syn size) where
  -- A step that ends and leaves no longer stream.
  Reading : {A : Type 0} → S → Parsed (A × S) → Type 0
  Reading {A} s m = (m ≢ out_of_fuel) × ((a : A) (s' : S) → m ≡ ok (a, s') → size s' ≤ size s)

  asked :
      {A B : Type 0} (s : S) (o : Option (A × S)) (g : A → B)
      → ((a : A) (s' : S) → o ≡ some (a, s') → size s' ≤ size s)
      → Reading s (ask o >>= λ (a, s'). ok (g a, s'))
  unfolding Reading
  asked s (some (a, s')) g shorter = (cc, λ b s'' e. subst_size s' s'' (cc) (shorter a s' refl))
    where
      subst_size : (x y : S) → x ≡ y → size x ≤ size s → size y ≤ size s
      subst_size x y e h = rw (← e) h
  asked s none g shorter = (cc, λ b s'' e. cc)

  refused : (A : Type 0) (s : S) (e : Error) → Reading {A = A} s (err e)
  unfolding Reading
  refused A s e = (cc, λ a s' p. cc)

  if_Reading :
      {A : Type 0} (s : S) (b : Bool) (x y : Parsed (A × S))
      → Reading s x
      → Reading s y
      → Reading s (if b then x else y)
  unfolding Reading
  if_Reading s true x y p q = p
  if_Reading s false x y p q = q

  task_value-Reading :
      (key : String) (g : Given Expr LitStr) (s : S)
      → Reading s (task_value S Expr LitStr syn key g s)
  unfolding Reading task_value
  task_value-Reading key g s =
      let e = consumes.expr_shorter s in
      if_Reading s (key is "priority") _ _ (asked s _ (λ x. record g { priority = some x }) e) (
        if_Reading s (key is "stack_size") _ _ (asked s _ (λ x. record g { stack_size = some x }) e)
          (if_Reading s (key is "time_slice") _ _
            (asked s _ (λ x. record g { time_slice = some x }) e)
            (if_Reading s (key is "name") _ _
              (asked s _ (λ x. record g { name = some x }) (consumes.lit_str_shorter s))
              (refused _ s (unknown_key key)))))

  main_value-Reading :
      (key : String) (c : Option Expr) (s : S) → Reading s (main_value S Expr LitStr syn key c s)
  unfolding Reading main_value
  main_value-Reading key c s =
      if_Reading s (key is "cpu_hz") _ _ (asked s _ some (consumes.expr_shorter s))
        (refused _ s (unknown_key key))

  skip_comma_shorter : (s : S) → size (skip_comma S Expr LitStr syn s) ≤ size s
  skip_comma_shorter s =
      elim (syn.comma s)
          as (λ o. syn.comma s ≡ o → size (elim o [ some s' ↦ s' | none ↦ s ]) ≤ size s) [
            | some s' ↦ λ e. consumes.comma_shorter s s' e
            | none ↦ λ e. omega arith
          ]
        refl

  less : (a b c d e f : ℕ) → a ≤ b → b ≤ c → c ≤ d → d < e → e < suc f → a < f
  less a b c d e f p q r s t = omega arith

  task_loop_stops :
      (f : ℕ) (g : Given Expr LitStr) (s : S)
      → size s < f
      → task_loop S Expr LitStr syn f g s ≢ out_of_fuel
  unfolding Reading task_loop
  task_loop_stops zero g s fuel = absurd (omega arith)
  task_loop_stops (suc f) g s fuel = if_stops _ _ _ (ok_stops _) (
      bind_stops (ask (syn.ident s)) _ (ask_stops _) λ (key, s₁) p₁.
        bind_stops (ask (syn.equals s₁)) _ (ask_stops _) λ s₂ p₂.
          let (stops, shorter) = task_value-Reading key g s₂ in
          bind_stops (task_value S Expr LitStr syn key g s₂) _ stops λ (g', s₃) p₃.
            task_loop_stops f g' _ (
              less _ (size s₃) (size s₂) (size s₁) (size s) f (skip_comma_shorter s₃)
                (shorter g' s₃ p₃) (consumes.equals_shorter s₁ s₂ (ask-ok _ _ p₂))
                (consumes.ident_shorter s key s₁ (ask-ok _ _ p₁)) fuel))

  main_loop_stops :
      (f : ℕ) (c : Option Expr) (s : S)
      → size s < f
      → main_loop S Expr LitStr syn f c s ≢ out_of_fuel
  unfolding Reading main_loop
  main_loop_stops zero c s fuel = absurd (omega arith)
  main_loop_stops (suc f) c s fuel = if_stops _ _ _ (ok_stops _) (
      bind_stops (ask (syn.ident s)) _ (ask_stops _) λ (key, s₁) p₁.
        bind_stops (ask (syn.equals s₁)) _ (ask_stops _) λ s₂ p₂.
          let (stops, shorter) = main_value-Reading key c s₂ in
          bind_stops (main_value S Expr LitStr syn key c s₂) _ stops λ (c', s₃) p₃.
            main_loop_stops f c' _ (
              less _ (size s₃) (size s₂) (size s₁) (size s) f (skip_comma_shorter s₃)
                (shorter c' s₃ p₃) (consumes.equals_shorter s₁ s₂ (ask-ok _ _ p₂))
                (consumes.ident_shorter s key s₁ (ask-ok _ _ p₁)) fuel))

  or_parsed_stops :
      (o : Option Expr) (text : String) → or_parsed S Expr LitStr syn o text ≢ out_of_fuel
  or_parsed_stops (some e) text = cc
  or_parsed_stops none text = unwrap_stops _

  required_stops : (o : Option Expr) → required S Expr LitStr syn o ≢ out_of_fuel
  required_stops (some e) = cc
  required_stops none = cc

  defaults_stop : (g : Given Expr LitStr) → with_defaults S Expr LitStr syn g ≢ out_of_fuel
  unfolding with_defaults
  defaults_stop g =
      bind_stops (or_parsed S Expr LitStr syn g.priority "0") _ (or_parsed_stops g.priority "0")
        λ p _.
          bind_stops (or_parsed S Expr LitStr syn g.stack_size "512usize") _
            (or_parsed_stops g.stack_size "512usize")
            λ n _.
              bind_stops (or_parsed S Expr LitStr syn g.time_slice "10") _
                (or_parsed_stops g.time_slice "10") λ t _. ok_stops _

  -- On every stream of fewer tokens than the fuel, both parsers end.
  pub parsers_stop :
      (f : ℕ) (s : S)
      → size s < f
      → (parse_task_args S Expr LitStr syn f s ≢ out_of_fuel)
        × (parse_main_args S Expr LitStr syn f s ≢ out_of_fuel)
  unfolding parse_task_args parse_main_args
  parsers_stop f s fuel = (
    bind_stops _ _ (task_loop_stops f nothing_given s fuel) λ g _. defaults_stop g,
    bind_stops _ _ (main_loop_stops f none s fuel) λ c _. required_stops c,
  )

-- Behind the clock rate and a comma, `#[main]` refuses every other key, with the name of the key in its message.
pub main_refuses :
    (S Expr LitStr : Type 0) (syn : Syn S Expr LitStr) (w : Writer S Expr LitStr)
    → Reads S Expr LitStr syn w
    → (f : ℕ) (e : Expr) (key : String) (s s₁ s₂ : S) → 1 < f
    → key ≢ "cpu_hz"
    → syn.is_empty s ≡ false
    → syn.ident s ≡ some (key, s₁)
    → syn.equals s₁ ≡ some s₂
    → parse_main_args S Expr LitStr syn f (w.key cpu_hz (w.equals (w.expr e (w.comma s))))
      ≡ err (unknown_key key)
unfolding parse_main_args main_loop main_value
main_refuses S Expr LitStr syn w reads zero e key s s₁ s₂ fuel ne more p q = absurd (omega arith)
main_refuses S Expr LitStr syn w reads (suc zero) e key s s₁ s₂ fuel ne more p q =
    absurd (omega arith)
main_refuses S Expr LitStr syn w reads (suc (suc f)) e key s s₁ s₂ fuel ne more p q =
    rw
      (
        reads.key_no_end,
        reads.key_read,
        reads.equals_read,
        reads.expr_read,
        skip_comma-some S Expr LitStr syn _ _ (reads.comma_read s),
        more,
        p,
        q,
        is-false_of_ne key "cpu_hz" ne,
      )
      refl
