-- ===== src/Macros/RoundTrip.antt =====
-- The parsers of kangaroos-macros/src/lib.rs read back what was written.
use kangaroos.Base.{
  ℕ, zero, suc, ◌≡◌, ◌<◌, ◌⊎◌, inl, inr, refl, ◌∙◌, Bool, true, false, Option, none, some, List, [],
  ◌∷◌, length, arith, if◌then◌else◌,
}
use kangaroos.Macros.{Syn, ok}
use kangaroos.Macros.Args.{
  Given, nothing_given, skip_comma, skip_comma-some, skip_comma-none, task_value, task_loop,
  or_parsed, with_defaults, parse_task_args, main_value, main_loop, parse_main_args,
}
use kangaroos.Macros.Print.{
  Writer, Reads, Setting, set_priority, set_stack_size, set_time_slice, set_name, write_setting,
  write_settings, priority_of, stack_size_of, time_slice_of, name_of, or_else, last_of, given_by,
  cpu_hz,
}

or_else_assoc : {A : Type 0} (a b c : Option A) → or_else (or_else a b) c ≡ or_else a (or_else b c)
or_else_assoc (some a) b c = refl
or_else_assoc none b c = refl

or_else-none : {A : Type 0} (a : Option A) → or_else a none ≡ a
or_else-none (some a) = refl
or_else-none none = refl

given_by-cons :
    {Expr LitStr : Type 0} (x : Setting Expr LitStr) (xs : List (Setting Expr LitStr))
    (g : Given Expr LitStr)
    → given_by xs (given_by (x ∷ []) g) ≡ given_by (x ∷ xs) g
given_by-cons x xs g =
    rw
      (
        or_else_assoc (last_of priority_of xs) (priority_of x) g.priority,
        or_else_assoc (last_of stack_size_of xs) (stack_size_of x) g.stack_size,
        or_else_assoc (last_of time_slice_of xs) (time_slice_of x) g.time_slice,
        or_else_assoc (last_of name_of xs) (name_of x) g.name,
      )
      refl

module _ (S Expr LitStr : Type 0) (syn : Syn S Expr LitStr) (w : Writer S Expr LitStr)
    (reads : Reads S Expr LitStr syn w) where
  -- An expression ends here.
  Ends : S → Type 0
  Ends s = (s ≡ w.end) ⊎ ((s' : S) × (s ≡ w.comma s'))

  expr_read_lem : (e : Expr) (s : S) → Ends s → syn.expr (w.expr e s) ≡ some (e, s)
  unfolding Ends
  expr_read_lem e s (inl p) = rw p (reads.expr_read_last e)
  expr_read_lem e s (inr (s', p)) = rw p (reads.expr_read e s')

  task_loop-write_setting :
      (f : ℕ) (g : Given Expr LitStr) (x : Setting Expr LitStr) (s : S)
      → Ends s
      → task_loop S Expr LitStr syn (suc f) g (write_setting S Expr LitStr w x s)
        ≡ task_loop S Expr LitStr syn f (given_by (x ∷ []) g) (skip_comma S Expr LitStr syn s)
  unfolding task_loop task_value
  task_loop-write_setting f g (set_priority e) s end =
      rw (reads.key_no_end, reads.key_read, reads.equals_read, expr_read_lem e s end) refl
  task_loop-write_setting f g (set_stack_size e) s end =
      rw (reads.key_no_end, reads.key_read, reads.equals_read, expr_read_lem e s end) refl
  task_loop-write_setting f g (set_time_slice e) s end =
      rw (reads.key_no_end, reads.key_read, reads.equals_read, expr_read_lem e s end) refl
  task_loop-write_setting f g (set_name l) s end =
      rw (reads.key_no_end, reads.key_read, reads.equals_read, reads.lit_str_read) refl

  at_end : (f : ℕ) (g : Given Expr LitStr) → task_loop S Expr LitStr syn (suc f) g w.end ≡ ok g
  unfolding task_loop
  at_end f g = rw reads.end_is_empty refl

  trailing_comma :
      (trailing : Bool)
      → let s = (if trailing then w.comma w.end else w.end) in
        Ends s × (skip_comma S Expr LitStr syn s ≡ w.end)
  unfolding Ends
  trailing_comma true =
      (inr (w.end, refl), skip_comma-some S Expr LitStr syn _ _ (reads.comma_read w.end))
  trailing_comma false = (inl refl, skip_comma-none S Expr LitStr syn _ reads.end_no_comma)

  task_loop-write_settings :
      (f : ℕ) (g : Given Expr LitStr) (trailing : Bool) (xs : List (Setting Expr LitStr))
      → length xs < f
      → task_loop S Expr LitStr syn f g (write_settings S Expr LitStr w trailing xs)
        ≡ ok (given_by xs g)
  unfolding Ends
  task_loop-write_settings zero g trailing xs fuel = absurd (omega arith)
  task_loop-write_settings (suc f) g trailing [] fuel = at_end f g
  task_loop-write_settings (suc zero) g trailing (x ∷ []) fuel = absurd (omega arith)
  task_loop-write_settings (suc (suc f)) g trailing (x ∷ []) fuel =
      let (end, skipped) = trailing_comma trailing in
      task_loop-write_setting (suc f) g x _ end ∙ rw skipped (at_end f _)
  task_loop-write_settings (suc f) g trailing (x ∷ y ∷ xs) fuel =
      let more = write_settings S Expr LitStr w trailing (y ∷ xs) in
      rw
        (
          task_loop-write_setting f g x (w.comma more) (inr (more, refl)),
          skip_comma-some S Expr LitStr syn _ _ (reads.comma_read more),
          task_loop-write_settings f (given_by (x ∷ []) g) trailing (y ∷ xs) (omega arith),
          given_by-cons x (y ∷ xs) g,
        )
        refl

  -- The parser of `#[task]` reads back arguments that are written with commas between them, in any order
  -- and with or without a comma at the end: of several values for one key it keeps the last, and the
  -- defaults `0`, `512usize` and `10` stand for the numbers that are not given. The fuel is more than the
  -- number of arguments.
  pub parse_task_args-write_settings :
      (f : ℕ) (trailing : Bool) (xs : List (Setting Expr LitStr))
      (priority stack_size time_slice : Expr)
      → length xs < f
      → or_parsed S Expr LitStr syn (last_of priority_of xs) "0" ≡ ok priority
      → or_parsed S Expr LitStr syn (last_of stack_size_of xs) "512usize" ≡ ok stack_size
      → or_parsed S Expr LitStr syn (last_of time_slice_of xs) "10" ≡ ok time_slice
      → parse_task_args S Expr LitStr syn f (write_settings S Expr LitStr w trailing xs)
        ≡ ok (record {
          priority = priority;
          stack_size = stack_size;
          time_slice = time_slice;
          name = last_of name_of xs;
        })
  unfolding parse_task_args with_defaults
  parse_task_args-write_settings f trailing xs priority stack_size time_slice fuel p n t =
      rw
        (
          task_loop-write_settings f nothing_given trailing xs fuel,
          or_else-none (last_of priority_of xs),
          or_else-none (last_of stack_size_of xs),
          or_else-none (last_of time_slice_of xs),
          or_else-none (last_of name_of xs),
          p,
          n,
          t,
        )
        refl

  -- The parser of `#[main]` reads back the clock rate, with or without a comma behind it.
  pub parse_main_args-write :
      (f : ℕ) (trailing : Bool) (e : Expr)
      → 1 < f
      → parse_main_args S Expr LitStr syn f
          (w.key cpu_hz (w.equals (w.expr e (if trailing then w.comma w.end else w.end))))
        ≡ ok (record { cpu_hz = e })
  unfolding parse_main_args main_loop main_value
  parse_main_args-write zero trailing e fuel = absurd (omega arith)
  parse_main_args-write (suc zero) trailing e fuel = absurd (omega arith)
  parse_main_args-write (suc (suc f)) trailing e fuel =
      let (end, skipped) = trailing_comma trailing in
      rw
        (
          reads.key_no_end,
          reads.key_read,
          reads.equals_read,
          expr_read_lem e _ end,
          skipped,
          reads.end_is_empty,
        )
        refl
