-- ===== src/Arch/Select.antt =====
-- Which port a build has: the flags of kangaroos/build.rs and the conditions in kangaroos/src/arch/mod.rs.
use kangaroos.Base.{
  Bool, true, false, not, ◌&&◌, ◌||◌, List, [], ◌∷◌, ◌++◌, ◌≡◌, refl, ◌⊎◌, inl, inr, if◌then◌else◌,
}
use kangaroos.Arch.Ports.{Port, armv6m, armv7m, armv7em_fpu, armv8m, armv8m_fpu}

-- The target triples that build.rs knows.
pub data Target : Type 0 where
  thumbv6m thumbv7m thumbv7em thumbv7em_hf thumbv8m_base thumbv8m_main thumbv8m_main_hf : Target
  other : Target

pub record Flags : Type 0 where
  pub is_armv6m : Bool
  pub is_armv7m : Bool
  pub is_armv7em : Bool
  pub is_armv8m : Bool
  pub has_fpu : Bool

abbrev no_flags : Flags
no_flags = record {
  is_armv6m = false;
  is_armv7m = false;
  is_armv7em = false;
  is_armv8m = false;
  has_fpu = false;
}

abbrev pub flags : Target → Flags
flags thumbv6m = record no_flags { is_armv6m = true }
flags thumbv7m = record no_flags { is_armv7m = true }
flags thumbv7em = record no_flags { is_armv7em = true }
flags thumbv7em_hf = record no_flags { is_armv7em = true; has_fpu = true }
flags thumbv8m_base = record no_flags { is_armv8m = true }
flags thumbv8m_main = record no_flags { is_armv8m = true }
flags thumbv8m_main_hf = record no_flags { is_armv8m = true; has_fpu = true }
flags other = no_flags

-- The modules whose condition holds; v8m.rs has two versions of `PendSV`.
abbrev pub selected : Flags → List Port
selected c =
    (if c.is_armv6m then armv6m ∷ [] else [])
    ++ (if c.is_armv7m || (c.is_armv7em && not c.has_fpu) then armv7m ∷ [] else [])
    ++ (if c.is_armv7em && c.has_fpu then armv7em_fpu ∷ [] else [])
    ++ (if c.is_armv8m then (if c.has_fpu then armv8m_fpu else armv8m) ∷ [] else [])

-- No target has two ports.
pub selected_one :
    (t : Target) → (selected (flags t) ≡ []) ⊎ ((p : Port) × (selected (flags t) ≡ p ∷ []))
selected_one thumbv6m = inr (armv6m, refl)
selected_one thumbv7m = inr (armv7m, refl)
selected_one thumbv7em = inr (armv7m, refl)
selected_one thumbv7em_hf = inr (armv7em_fpu, refl)
selected_one thumbv8m_base = inr (armv8m, refl)
selected_one thumbv8m_main = inr (armv8m, refl)
selected_one thumbv8m_main_hf = inr (armv8m_fpu, refl)
selected_one other = inl refl
