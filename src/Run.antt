-- ===== src/Run.antt =====
-- The outcome of kernel code: a value, a Rust panic, a null dereference, a read of memory that is not
-- initialised, or a loop whose fuel ran out.
use kangaroos.Base.{◌≡◌, refl}

pub data Run (A : Type 0) : Type 0 where
  ok : A → Run A
  panic : Run A
  null_deref : Run A
  uninit_read : Run A
  out_of_fuel : Run A

infixl 5 ◌>>=◌
abbrev pub ◌>>=◌ : {A B : Type 0} → Run A → (A → Run B) → Run B
ok a >>= f = f a
panic >>= f = panic
null_deref >>= f = null_deref
uninit_read >>= f = uninit_read
out_of_fuel >>= f = out_of_fuel

pub ok-injective : {A : Type 0} (a b : A) → ok a ≡ ok b → a ≡ b
ok-injective a b e = cc

-- The parts of a sequence that returns.
pub >>=-eq-ok :
    {A B : Type 0} (m : Run A) (f : A → Run B) (b : B)
    → (m >>= f) ≡ ok b
    → (a : A) × (m ≡ ok a) × (f a ≡ ok b)
>>=-eq-ok (ok a) f b e = (a, refl, e)
>>=-eq-ok panic f b e = cc
>>=-eq-ok null_deref f b e = cc
>>=-eq-ok uninit_read f b e = cc
>>=-eq-ok out_of_fuel f b e = cc
