-- ===== src/Timer.antt =====
-- kangaroos/src/timer/mod.rs. Times are `u64` ticks. The source's plain `+` and `*` panic on overflow
-- in a build with overflow checks and wrap in one without.
pub mod Laws
mod Tests
use kangaroos.Base.{ℕ, ◌+◌, ◌-◌, ◌*◌, ◌/◌, ◌%◌, ◌^◌, Option, none, some, ltb, leb, if◌then◌else◌}
use kangaroos.Run.{Run, ok, panic, ◌>>=◌}
use kangaroos.Kernel.{Kernel}
use kangaroos.Task.{sleep_until}

pub data Build : Type 0 where
  checked wrapping : Build

-- A sum or product that may not fit a `u64`.
unfoldable pub u64 : Build → ℕ → Run ℕ
u64 checked n = if ltb n (2 ^ 64) then ok n else panic
u64 wrapping n = ok (n % 2 ^ 64)

abbrev pub ticks_per_sec : ℕ
ticks_per_sec = 1000

pub record Duration : Type 0 where
  pub ticks : ℕ

abbrev pub from_ticks : ℕ → Duration
from_ticks n = record { ticks = n }

pub from_millis : Build → ℕ → Run Duration
from_millis b ms = do n ← u64 b (ms * ticks_per_sec); ok (from_ticks (n / 1000))

pub from_secs : Build → ℕ → Run Duration
from_secs b secs = do n ← u64 b (secs * ticks_per_sec); ok (from_ticks n)

pub as_millis : Build → Duration → Run ℕ
as_millis b d = do n ← u64 b (d.ticks * 1000); ok (n / ticks_per_sec)

pub as_secs : Duration → ℕ
as_secs d = d.ticks / ticks_per_sec

pub add : Build → Duration → Duration → Run Duration
add b d e = do n ← u64 b (d.ticks + e.ticks); ok (from_ticks n)

-- `saturating_sub`: `-` on ℕ stops at 0.
pub sub : Duration → Duration → Duration
sub d e = from_ticks (d.ticks - e.ticks)

pub record Instant : Type 0 where
  pub at : ℕ

pub now : Kernel → Instant
now k = record { at = k.tick }

pub checked_duration_since : (self earlier : Instant) → Option Duration
checked_duration_since self earlier =
    if leb earlier.at self.at then some (from_ticks (self.at - earlier.at)) else none

pub saturating_duration_since : (self earlier : Instant) → Duration
saturating_duration_since self earlier = from_ticks (self.at - earlier.at)

pub elapsed : Instant → Kernel → Duration
elapsed self k = saturating_duration_since (now k) self

pub record Timer : Type 0 where
  pub next : ℕ
  pub period : Option ℕ

pub after : Duration → Kernel → Timer
after delay k = record { next = (k.tick + delay.ticks) % 2 ^ 64; period = none }

pub every : Duration → Kernel → Timer
every period k = record { next = (k.tick + period.ticks) % 2 ^ 64; period = some period.ticks }

-- The deadline behind a wait.
pub advance : Timer → Option ℕ → Timer
advance t none = t
advance t (some p) = record t { next = (t.next + p) % 2 ^ 64 }

-- `sleep_until`, and the new deadline of a periodic timer.
pub wait : Timer → Kernel → Run (Timer × Kernel)
unfolding advance
wait t k = do k' ← sleep_until t.next k; ok (advance t t.period, k')
