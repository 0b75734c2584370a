-- ===== src/Tcb.antt =====
-- kangaroos/src/kernel/tcb.rs: the task control block and its states. A pointer to a `Tcb` is a
-- number, 0 for null. Task storage is static and never freed, so every other address holds a `Tcb`.
use Prim.Native.String.{String}
use kangaroos.Base.{
  ℕ, ◌≡◌, ◌≢◌, ==_self, ==-false_of_ne, ◌==◌, arith, if◌then◌else◌, Bool, true, false,
}
use kangaroos.Run.{Run, ok, null_deref, panic}

abbrev pub Ptr : Type 0
Ptr = ℕ

abbrev pub null : Ptr
null = 0

pub data TaskState : Type 0 where
  uninit : TaskState
  ready : (slice_remaining : ℕ) → TaskState
  running : (slice_remaining : ℕ) → TaskState
  blocked : (wait_next : Ptr) → TaskState
  sleeping : (deadline : ℕ) → TaskState
  dead : TaskState

pub record Tcb : Type 0 where
  pub sp : ℕ
  pub state : TaskState
  pub priority : ℕ
  pub base_priority : ℕ
  pub time_slice : ℕ
  pub stack_base : ℕ
  pub name : String
  pub all_next : Ptr
  pub wait_ptr : ℕ

abbrev pub zeroed : Tcb
zeroed = record {
  sp = 0;
  state = uninit;
  priority = 0;
  base_priority = 0;
  time_slice = 0;
  stack_base = 0;
  name = "";
  all_next = null;
  wait_ptr = 0;
}

-- The memory that holds the task control blocks.
abbrev pub Tasks : Type 0
Tasks = Ptr → Tcb

unfoldable pub write : Tasks → Ptr → Tcb → Tasks
write h p t a = if a == p then t else h a

-- `*p`, which faults at null.
unfoldable pub load : Tasks → Ptr → Run Tcb
load h p = if p == null then null_deref else ok (h p)

-- `(*p).state = s`.
unfoldable pub set_state : Tasks → Ptr → TaskState → Tasks
unfolding write
set_state h p s = write h p (record (h p) { state = s })

-- `let TaskState::Blocked { wait_next } = s else { unreachable!() }`.
abbrev pub wait_next_of : TaskState → Run Ptr
wait_next_of (blocked n) = ok n
wait_next_of _ = panic

abbrev pub is_ready : TaskState → Bool
is_ready (ready _) = true
is_ready _ = false

abbrev pub is_running : TaskState → Bool
is_running (running _) = true
is_running _ = false

pub write_self : (h : Tasks) (p : Ptr) (t : Tcb) → write h p t p ≡ t
unfolding write
write_self h p t = rw (==_self p)

pub write_ne : (h : Tasks) (p : Ptr) (t : Tcb) (a : Ptr) → a ≢ p → write h p t a ≡ h a
unfolding write
write_ne h p t a n = rw (==-false_of_ne a p n)

pub set_state-all_next :
    (h : Tasks) (p : Ptr) (s : TaskState) (a : Ptr) → (set_state h p s a).all_next ≡ (h a).all_next
unfolding set_state
set_state-all_next h p s a = ground arith

pub set_state_self :
    (h : Tasks) (p : Ptr) (s : TaskState) → set_state h p s p ≡ record (h p) { state = s }
unfolding set_state
set_state_self h p s = ground arith

pub set_state_ne : (h : Tasks) (p : Ptr) (s : TaskState) (a : Ptr) → a ≢ p → set_state h p s a ≡ h a
unfolding set_state
set_state_ne h p s a n = ground arith

-- Memories that differ in the states of the tasks alone.
pub set_state_same :
    (g h : Tasks) (p : Ptr) (s : TaskState) (a : Ptr)
    → g a ≡ record (h a) { state = (g a).state }
    → set_state g p s a ≡ record (h a) { state = (set_state g p s a).state }
unfolding set_state
set_state_same g h p s a e = ground arith

-- `(*p).priority = n`.
unfoldable pub set_priority : Tasks → Ptr → ℕ → Tasks
unfolding write
set_priority h p n = write h p (record (h p) { priority = n })

pub set_priority-state :
    (h : Tasks) (p : Ptr) (n : ℕ) (a : Ptr) → (set_priority h p n a).state ≡ (h a).state
unfolding set_priority
set_priority-state h p n a = ground arith

pub set_priority_self :
    (h : Tasks) (p : Ptr) (n : ℕ) → set_priority h p n p ≡ record (h p) { priority = n }
unfolding set_priority
set_priority_self h p n = ground arith

pub set_priority_ne : (h : Tasks) (p : Ptr) (n : ℕ) (a : Ptr) → a ≢ p → set_priority h p n a ≡ h a
unfolding set_priority
set_priority_ne h p n a ne = ground arith

pub set_priority-all_next :
    (h : Tasks) (p : Ptr) (n : ℕ) (a : Ptr) → (set_priority h p n a).all_next ≡ (h a).all_next
unfolding set_priority
set_priority-all_next h p n a = ground arith

-- `(*p).wait_ptr = n`.
unfoldable pub set_wait_ptr : Tasks → Ptr → ℕ → Tasks
unfolding write
set_wait_ptr h p n = write h p (record (h p) { wait_ptr = n })

pub set_wait_ptr-state :
    (h : Tasks) (p : Ptr) (n : ℕ) (a : Ptr) → (set_wait_ptr h p n a).state ≡ (h a).state
unfolding set_wait_ptr
set_wait_ptr-state h p n a = ground arith

pub set_wait_ptr_self :
    (h : Tasks) (p : Ptr) (n : ℕ) → set_wait_ptr h p n p ≡ record (h p) { wait_ptr = n }
unfolding set_wait_ptr
set_wait_ptr_self h p n = ground arith
