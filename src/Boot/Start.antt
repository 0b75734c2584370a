-- ===== src/Boot/Start.antt =====
-- `start` of kangaroos/src/kernel/mod.rs: the idle task, the calls of the `cortex-m` crate on the device in their
-- order, and the `svc` that launches the first task.
use kangaroos.Base.{
  ℕ, zero, suc, ◌+◌, ◌-◌, ◌*◌, ◌/◌, ◌%◌, ◌^◌, ◌≡◌, ◌≤◌, ◌<◌, refl, ap, Bool, true, false, List, [],
  ◌∷◌, ◌++◌, ltb, if◌then◌else◌, arith,
}
use kangaroos.Run.{Run, ok, panic, ◌>>=◌}
use kangaroos.Kernel.{Kernel}
use kangaroos.Timer.{Build, checked, wrapping}
use kangaroos.Boot.{SpawnToken, Boot, TaskStorage, idle_token, register}
use kangaroos.Boot.Tokens.{Fits, Booted}
use kangaroos.Boot.Spawn.{spawn_into_lem}

-- What `start` does to the device. `enable_fpu` is the write of CPACR with its barriers.
pub data Call : Type 0 where
  enable_fpu : Call
  pendsv_priority systick_priority set_reload : ℕ → Call
  clear_current core_clock enable_interrupt enable_counter svc : Call

-- The difference of two `u32`.
unfoldable pub sub_u32 : Build → ℕ → ℕ → Run ℕ
sub_u32 checked a b = if ltb a b then panic else ok (a - b)
sub_u32 wrapping a b = ok ((2 ^ 32 + a - b) % 2 ^ 32)

-- `start` up to the `svc`, where `storage` is `IDLE_STORAGE`.
unfoldable pub start :
    (build : Build) (has_fpu : Bool) (exit_lr : ℕ) (storage : TaskStorage) (idle_task : ℕ)
    → (cpu_freq_hz : ℕ) → Boot
    → Run (List Call × Boot)
start build has_fpu exit_lr storage idle_task cpu_freq_hz st = do
  st' ← register exit_lr storage idle_task st
  reload ← sub_u32 build (cpu_freq_hz / 1000) 1
  ok (
    (if has_fpu then enable_fpu ∷ [] else [])
        ++ (pendsv_priority 0xFF
            ∷ systick_priority 0x00
            ∷ set_reload reload
            ∷ clear_current
            ∷ core_clock
            ∷ enable_interrupt
            ∷ enable_counter
            ∷ svc
            ∷ []),
    st',
  )

-- The priority that a device with `bits` of 8 priority bits takes from a register's byte: the other bits are
-- read as zero.
abbrev pub effective : (bits value : ℕ) → ℕ
effective bits value = value / 2 ^ (8 - bits) * 2 ^ (8 - bits)

-- Of the calls, the last value that is set for the reload of SysTick.
abbrev pub reload_of : List Call → ℕ
reload_of [] = 0
reload_of (set_reload n ∷ cs) = n
reload_of (_ ∷ cs) = reload_of cs

abbrev pub pendsv_of : List Call → ℕ
pendsv_of [] = 0
pendsv_of (pendsv_priority n ∷ cs) = n
pendsv_of (_ ∷ cs) = pendsv_of cs

abbrev pub systick_of : List Call → ℕ
systick_of [] = 0
systick_of (systick_priority n ∷ cs) = n
systick_of (_ ∷ cs) = systick_of cs

-- SysTick has the highest and PendSV the lowest priority of the device, and they differ.
abbrev pub Ranks : (bits : ℕ) → List Call → Type 0
Ranks bits cs =
    (effective bits (systick_of cs) < effective bits (pendsv_of cs))
    × ((v : ℕ)
        → v < 2 ^ 8
        → (effective bits (systick_of cs) ≤ effective bits v)
          × (effective bits v ≤ effective bits (pendsv_of cs)))

-- SysTick has `reload + 1` cycles: the period is a thousandth of a second, rounded down to cycles.
abbrev pub Period : (cpu_freq_hz : ℕ) → List Call → Type 0
Period hz cs =
    (1000 * (reload_of cs + 1) ≤ hz) × (hz < 1000 * (reload_of cs + 2)) × (reload_of cs < 2 ^ 24)

calls : Bool → ℕ → List Call
calls has_fpu reload =
    (if has_fpu then enable_fpu ∷ [] else [])
    ++ (pendsv_priority 0xFF
        ∷ systick_priority 0x00
        ∷ set_reload reload
        ∷ clear_current
        ∷ core_clock
        ∷ enable_interrupt
        ∷ enable_counter
        ∷ svc
        ∷ [])

effective_bounds :
    (bits : ℕ)
    → 1 ≤ bits
    → bits ≤ 8
    → (effective bits 0 < effective bits 0xFF)
      × ((v : ℕ)
          → v < 2 ^ 8
          → (effective bits 0 ≤ effective bits v) × (effective bits v ≤ effective bits 0xFF))
effective_bounds zero lo hi = absurd (omega arith)
effective_bounds (suc zero) lo hi = (omega arith, λ v small. (omega arith, omega arith))
effective_bounds (suc (suc zero)) lo hi = (omega arith, λ v small. (omega arith, omega arith))
effective_bounds (suc (suc (suc zero))) lo hi = (omega arith, λ v small. (omega arith, omega arith))
effective_bounds (suc (suc (suc (suc zero)))) lo hi =
    (omega arith, λ v small. (omega arith, omega arith))
effective_bounds (suc (suc (suc (suc (suc zero))))) lo hi =
    (omega arith, λ v small. (omega arith, omega arith))
effective_bounds (suc (suc (suc (suc (suc (suc zero)))))) lo hi =
    (omega arith, λ v small. (omega arith, omega arith))
effective_bounds (suc (suc (suc (suc (suc (suc (suc zero))))))) lo hi =
    (omega arith, λ v small. (omega arith, omega arith))
effective_bounds (suc (suc (suc (suc (suc (suc (suc (suc zero)))))))) lo hi =
    (omega arith, λ v small. (omega arith, omega arith))
effective_bounds (suc (suc (suc (suc (suc (suc (suc (suc (suc n))))))))) lo hi =
    absurd (omega arith)

calls-Ranks :
    (bits : ℕ) (has_fpu : Bool) (reload : ℕ)
    → 1 ≤ bits
    → bits ≤ 8
    → Ranks bits (calls has_fpu reload)
unfolding calls
calls-Ranks bits true reload lo hi = effective_bounds bits lo hi
calls-Ranks bits false reload lo hi = effective_bounds bits lo hi

calls-Period :
    (hz : ℕ) (has_fpu : Bool) → 1000 ≤ hz → hz < 2 ^ 32 → Period hz (calls has_fpu (hz / 1000 - 1))
unfolding calls
calls-Period hz true lo hi = (omega arith, omega arith, omega arith)
calls-Period hz false lo hi = (omega arith, omega arith, omega arith)

sub_u32_one : (build : Build) (a : ℕ) → 1 ≤ a → a < 2 ^ 32 → sub_u32 build a 1 ≡ ok (a - 1)
unfolding sub_u32
sub_u32_one checked a lo hi = ground arith
sub_u32_one wrapping a lo hi = ap ok (omega arith)

reload_calls : (has_fpu : Bool) → reload_of (calls has_fpu (2 ^ 32 - 1)) ≡ 2 ^ 32 - 1
unfolding calls
reload_calls true = refl
reload_calls false = refl

-- For a clock from 1000 Hz on, and an idle task that fits, `start` registers the idle task in front of the
-- spawned ones. Behind its calls SysTick has the highest and PendSV the lowest priority on every device, the
-- period of SysTick is a thousandth of a second, rounded down to cycles, and the reload fits its 24 bits.
pub start_lem :
    (build : Build) (has_fpu : Bool) (exit_lr : ℕ) (storage : TaskStorage) (idle_task hz : ℕ)
    (ts : List SpawnToken) (m : ℕ → ℕ) (k : Kernel)
    → 1000 ≤ hz
    → hz < 2 ^ 32
    → Booted exit_lr ts m k
    → Fits (idle_token storage idle_task) ts
    → (cs : List Call) × (m' : ℕ → ℕ) × (k' : Kernel) × (start build has_fpu exit_lr storage
          idle_task hz
          (m, k)
        ≡ ok (cs, (m', k')))
      × Booted exit_lr (idle_token storage idle_task ∷ ts) m' k'
      × ((bits : ℕ) → 1 ≤ bits → bits ≤ 8 → Ranks bits cs)
      × Period hz cs
unfolding start calls
start_lem build has_fpu exit_lr storage idle_task hz ts m k lo hi s fit =
    let (m', k', returns, booted, _) =
      spawn_into_lem exit_lr (idle_token storage idle_task) ts m k s fit in
    (
      calls has_fpu (hz / 1000 - 1),
      m',
      k',
      rw (returns, sub_u32_one build (hz / 1000) (omega arith) (omega arith)) refl,
      booted,
      λ bits l h. calls-Ranks bits has_fpu (hz / 1000 - 1) l h,
      calls-Period hz has_fpu lo hi,
    )

-- A clock below 1000 Hz: a build with overflow checks panics, and one without gives SysTick the reload
-- 2 ^ 32 - 1, which its 24 bits cannot hold.
pub start_slow :
    (has_fpu : Bool) (exit_lr : ℕ) (storage : TaskStorage) (idle_task hz : ℕ) (ts : List SpawnToken)
    (m : ℕ → ℕ) (k : Kernel)
    → hz < 1000
    → Booted exit_lr ts m k
    → Fits (idle_token storage idle_task) ts
    → (start checked has_fpu exit_lr storage idle_task hz (m, k) ≡ panic)
      × ((cs : List Call) × (st : Boot) × (start wrapping has_fpu exit_lr storage idle_task hz
              (m, k)
            ≡ ok (cs, st))
          × (reload_of cs ≡ 2 ^ 32 - 1))
unfolding start sub_u32 calls
start_slow has_fpu exit_lr storage idle_task hz ts m k slow s fit =
    let (m', k', returns, booted, _) =
      spawn_into_lem exit_lr (idle_token storage idle_task) ts m k s fit in
    let none : hz / 1000 ≡ 0 = omega arith in
    (
      rw (returns, none) refl,
      (calls has_fpu (2 ^ 32 - 1), (m', k'), rw (returns, none) refl, reload_calls has_fpu),
    )
