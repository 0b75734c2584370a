-- ===== src/Slots.antt =====
-- `MaybeUninit<T>` storage: the buffer of kangaroos/src/channel/mod.rs, the nodes of
-- kangaroos/src/mem/mod.rs, and the stack slots of blocked tasks. An index or an address has a value,
-- or `none` where nothing is initialised.
pub mod Waiting
use kangaroos.Base.{ℕ, Option, none, some, ◌==◌, if◌then◌else◌}
use kangaroos.Run.{Run, ok, uninit_read}

abbrev pub Slots : Type 0 → Type 0
Slots T = ℕ → Option T

unfoldable pub store : {T : Type 0} → Slots T → ℕ → T → Slots T
store s i v j = if j == i then some v else s j

abbrev pub assume_init : {T : Type 0} → Option T → Run T
assume_init none = uninit_read
assume_init (some v) = ok v

-- `assume_init_drop`.
unfoldable pub erase : {T : Type 0} → Slots T → ℕ → Slots T
erase s i j = if j == i then none else s j
