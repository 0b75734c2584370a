-- ===== src/Macros/Tests.antt =====
-- The parsers and expansions on streams of a few kinds of token, and a task from its attribute on.
use Prim.Native.String.{String}
use text.Mathlib.TextEquality.{eq_iff}
use kangaroos.Base.{
  ℕ, ◌/◌, ◌%◌, ◌^◌, ◌≡◌, ◌≢◌, ◌≤◌, ◌<◌, refl, ap, Bool, true, false, false≢true, Option, none, some,
  List, [], ◌∷◌, length, arith, if◌then◌else◌,
}
use kangaroos.Run
use kangaroos.Run.{panic}
use kangaroos.Kernel.{Kernel}
use kangaroos.Boot.{SpawnToken, spawn}
use kangaroos.Boot.Tokens.{Booted}
use kangaroos.Boot.Samples.{empty}
use kangaroos.Boot.Turns.{no_tasks-Booted}
use kangaroos.Macros.{
  Syn, ok, err, out_of_fuel, unknown_key, cpu_hz_required, spawner_required, ◌is◌,
}
use kangaroos.Macros.Args.{
  parse_task_args, parse_main_args, task_value, task_loop, with_defaults, main_loop, main_value,
}
use kangaroos.Macros.Print.{
  Writer, Reads, spelling, Setting, set_priority, set_stack_size, set_name, write_settings,
}
use kangaroos.Macros.RoundTrip.{parse_task_args-write_settings}
use kangaroos.Macros.Refuse.{Consumes, parsers_stop, main_refuses}
use kangaroos.Macros.Expand.{ItemFn, typed, Expansion, factory_of, main, task}
use kangaroos.Macros.Factory.{Place, token}
use kangaroos.Macros.Laws.{task-spawns}

data Token : Type 0 where
  word : String → Token
  number : ℕ → Token
  literal : String → Token
  equals comma : Token

abbrev size : List Token → ℕ
size ts = length ts

abbrev read_ident : List Token → Option (String × List Token)
read_ident (word s ∷ ts) = some (s, ts)
read_ident _ = none

abbrev read_equals : List Token → Option (List Token)
read_equals (equals ∷ ts) = some ts
read_equals _ = none

abbrev read_expr : List Token → Option (ℕ × List Token)
read_expr (number n ∷ ts) = some (n, ts)
read_expr _ = none

abbrev read_literal : List Token → Option (String × List Token)
read_literal (literal s ∷ ts) = some (s, ts)
read_literal _ = none

abbrev read_comma : List Token → Option (List Token)
read_comma (comma ∷ ts) = some ts
read_comma _ = none

abbrev is_end : List Token → Bool
is_end [] = true
is_end _ = false

abbrev number_of : String → Option ℕ
number_of s =
    if s is "0"
    then some 0
    else if s is "512usize"
    then some 512
    else if s is "10"
    then some 10
    else none

abbrev tokens : Syn (List Token) ℕ String
tokens = record {
  is_empty = is_end;
  ident = read_ident;
  equals = read_equals;
  expr = read_expr;
  lit_str = read_literal;
  comma = read_comma;
  parse_str = number_of;
}

abbrev writer : Writer (List Token) ℕ String
writer = record {
  end = [];
  key = λ k ts. word (spelling k) ∷ ts;
  equals = λ ts. equals ∷ ts;
  expr = λ n ts. number n ∷ ts;
  lit_str = λ s ts. literal s ∷ ts;
  comma = λ ts. comma ∷ ts;
}

tokens-Reads : Reads (List Token) ℕ String tokens writer
tokens-Reads = record {
  end_is_empty = refl;
  end_no_comma = refl;
  key_no_end = λ k s. refl;
  key_read = λ k s. refl;
  equals_read = λ s. refl;
  expr_read_last = λ e. refl;
  expr_read = λ e s. refl;
  lit_str_read = λ l s. refl;
  comma_read = λ s. refl;
}

-- A stream that a token was read off.
shorter : (x : Token) (ts us : List Token) → us ≡ ts → length us < length (x ∷ ts)
shorter x ts us e = omega (arith, ap length e)

weaken : (a b : ℕ) → a < b → a ≤ b
weaken a b h = omega arith

ident_lem :
    (s : List Token) (k : String) (s' : List Token)
    → read_ident s ≡ some (k, s')
    → length s' < length s
ident_lem (word w ∷ ts) k s' e = shorter (word w) ts s' (cc)
ident_lem [] k s' e = cc
ident_lem (number n ∷ ts) k s' e = cc
ident_lem (literal n ∷ ts) k s' e = cc
ident_lem (equals ∷ ts) k s' e = cc
ident_lem (comma ∷ ts) k s' e = cc

equals_lem : (s s' : List Token) → read_equals s ≡ some s' → length s' ≤ length s
equals_lem (equals ∷ ts) s' e = weaken _ _ (shorter equals ts s' (cc))
equals_lem [] s' e = cc
equals_lem (word n ∷ ts) s' e = cc
equals_lem (number n ∷ ts) s' e = cc
equals_lem (literal n ∷ ts) s' e = cc
equals_lem (comma ∷ ts) s' e = cc

comma_lem : (s s' : List Token) → read_comma s ≡ some s' → length s' ≤ length s
comma_lem (comma ∷ ts) s' e = weaken _ _ (shorter comma ts s' (cc))
comma_lem [] s' e = cc
comma_lem (word n ∷ ts) s' e = cc
comma_lem (number n ∷ ts) s' e = cc
comma_lem (literal n ∷ ts) s' e = cc
comma_lem (equals ∷ ts) s' e = cc

expr_lem :
    (s : List Token) (n : ℕ) (s' : List Token) → read_expr s ≡ some (n, s') → length s' ≤ length s
expr_lem (number m ∷ ts) n s' e = weaken _ _ (shorter (number m) ts s' (cc))
expr_lem [] n s' e = cc
expr_lem (word m ∷ ts) n s' e = cc
expr_lem (literal m ∷ ts) n s' e = cc
expr_lem (equals ∷ ts) n s' e = cc
expr_lem (comma ∷ ts) n s' e = cc

literal_lem :
    (s : List Token) (l : String) (s' : List Token)
    → read_literal s ≡ some (l, s')
    → length s' ≤ length s
literal_lem (literal m ∷ ts) l s' e = weaken _ _ (shorter (literal m) ts s' (cc))
literal_lem [] l s' e = cc
literal_lem (word m ∷ ts) l s' e = cc
literal_lem (number m ∷ ts) l s' e = cc
literal_lem (equals ∷ ts) l s' e = cc
literal_lem (comma ∷ ts) l s' e = cc

tokens-Consumes : Consumes (List Token) ℕ String tokens size
tokens-Consumes = record {
  ident_shorter = ident_lem;
  equals_shorter = equals_lem;
  expr_shorter = expr_lem;
  lit_str_shorter = literal_lem;
  comma_shorter = comma_lem;
}

abbrev settings : List (Setting ℕ String)
settings = set_priority 3 ∷ set_name "blink" ∷ set_stack_size 2048 ∷ set_priority 1 ∷ []

parse_task_args-write_settings_example :
    parse_task_args
      (List Token)
      ℕ
      String
      tokens
      5
      (write_settings (List Token) ℕ String writer false settings)
    ≡ ok (record { priority = 1; stack_size = 2048; time_slice = 10; name = some "blink" })
parse_task_args-write_settings_example =
    parse_task_args-write_settings (List Token) ℕ String tokens writer tokens-Reads 5 false settings
      1 2048 10 (omega arith) refl refl refl

-- `cpu_hz = 8_000_000, max_tasks = 4`
abbrev documented : List Token
documented =
    word "cpu_hz" ∷ equals ∷ number 8_000_000 ∷ comma ∷ word "max_tasks" ∷ equals ∷ number 4 ∷ []

parsers_stop_example :
    (parse_task_args (List Token) ℕ String tokens 8 documented ≢ out_of_fuel)
    × (parse_main_args (List Token) ℕ String tokens 8 documented ≢ out_of_fuel)
parsers_stop_example =
    parsers_stop (List Token) ℕ String tokens size tokens-Consumes 8 documented (omega arith)

abbrev max_tasks : String
max_tasks = "max_tasks"

max_tasks_ne : max_tasks ≢ "cpu_hz"
max_tasks_ne e = false≢true ((eq_iff max_tasks "cpu_hz").1 e)

main_refuses_example :
    parse_main_args (List Token) ℕ String tokens 2 documented ≡ err (unknown_key "max_tasks")
main_refuses_example =
    main_refuses (List Token) ℕ String tokens writer tokens-Reads 2 8_000_000 "max_tasks"
      (word "max_tasks" ∷ equals ∷ number 4 ∷ []) (equals ∷ number 4 ∷ []) (number 4 ∷ [])
      (omega arith) max_tasks_ne refl refl refl

-- Without commas the parser of `#[task]` reads on.
no_commas :
    parse_task_args
      (List Token)
      ℕ
      String
      tokens
      3
      (word "priority" ∷ equals ∷ number 1 ∷ word "time_slice" ∷ equals ∷ number 5 ∷ [])
    ≡ ok (record { priority = 1; stack_size = 512; time_slice = 5; name = none })
unfolding parse_task_args task_loop task_value with_defaults
no_commas = refl

no_cpu_hz : parse_main_args (List Token) ℕ String tokens 1 [] ≡ err cpu_hz_required
unfolding parse_main_args main_loop
no_cpu_hz = refl

-- `main` needs a parameter for the spawner.
no_spawner :
    main
      (List Token)
      ℕ
      String
      String
      String
      ℕ
      tokens
      (λ t. none)
      2
      (word "cpu_hz" ∷ equals ∷ number 8 ∷ [])
      (record { ident = "main"; inputs = []; block = 0 })
    ≡ err spawner_required
unfolding main parse_main_args main_loop main_value
no_spawner = refl

abbrev blink : ItemFn String String ℕ
blink = record { ident = "blink"; inputs = typed "pin" "u32" ∷ []; block = 0 }

abbrev place : Place
place = record { stack = 4096; tcb = 7; entry = 9001 }

task-spawns_example :
    (x : Expansion ℕ String String String ℕ) × (u : SpawnToken) × (task
        (List Token)
        ℕ
        String
        String
        String
        ℕ
        tokens
        (λ s. s)
        (λ s. s)
        5
        (write_settings (List Token) ℕ String writer true settings)
        blink
      ≡ ok x)
    × (token ℕ String String String ℕ (λ n. n) (λ s. s) (factory_of x) place ≡ u)
    × (2048 < 84 → spawn 1 u (λ i. 0, empty) ≡ panic)
    × (84 ≤ 2048
        → (m' : ℕ → ℕ) × (k' : Kernel) × (spawn 1 u (λ i. 0, empty) ≡ Run.ok (m', k'))
          × Booted 1 (u ∷ []) m' k')
    × (u.stack_len ≡ 2048 / 4)
    × (u.priority ≡ 1 % 2 ^ 8)
    × (u.time_slice ≡ 10 % 2 ^ 8)
task-spawns_example =
    task-spawns (List Token) ℕ String String String ℕ tokens writer tokens-Reads (λ s. s) (λ s. s)
      (λ n. n) (λ s. s) 5 true settings blink 1 2048 10 place 1 [] (λ i. 0) empty (omega arith) refl
      refl refl (omega arith) (no_tasks-Booted 1 (λ i. 0) empty refl) (λ e. omega (arith, e)) refl
      tt
