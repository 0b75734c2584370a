-- ===== src/System/Frames.antt =====
-- Writes that change neither the list of all tasks nor who runs or can run.
use kangaroos.Base.{
  ℕ, zero, suc, ◌≡◌, ◌≢◌, refl, sym, ap, subst, ◌∙◌, Bool, inl, inr, arith, ◌==◌, ltb, Bool-cases,
}
use kangaroos.Run.{ok, ok-injective, >>=-eq-ok}
use kangaroos.Tcb.{
  Ptr, null, Tcb, Tasks, TaskState, ready, blocked, is_running, load, write, set_state,
  set_wait_ptr, set_priority, wait_next_of,
}
use kangaroos.Kernel.{Kernel}
use kangaroos.WaitList.{scan, unlink, wait_list_pop_highest}
use kangaroos.Scheduler.{eligible, unblock}
use kangaroos.Sync.EventGroup.{cut}

pub record Frames (h g : Tasks) : Type 0 where
  pub all_next : (a : ℕ) → (g a).all_next ≡ (h a).all_next
  pub runs : (a : ℕ) → is_running (g a).state ≡ is_running (h a).state
  pub can_run : (a : ℕ) → eligible (g a).state ≡ eligible (h a).state

pub Frames-refl : (h : Tasks) → Frames h h
Frames-refl h = record { all_next = λ a. refl; runs = λ a. refl; can_run = λ a. refl }

pub load-eq-ok : (h : Tasks) (p : Ptr) (t : Tcb) → load h p ≡ ok t → (p ≢ null) × (t ≡ h p)
unfolding load
load-eq-ok h p t e = elim (Bool-cases (p == null)) [
  | inl n ↦ absurd (ground arith)
  | inr n ↦ (ground arith, ground arith)
]

blocked_of : (s : TaskState) (q : Ptr) → wait_next_of s ≡ ok q → s ≡ blocked q
blocked_of s q e = ground arith

-- A new link of a task that waits.
link-Frames :
    (h : Tasks) (p q n : Ptr) → (h p).state ≡ blocked q → Frames h (set_state h p (blocked n))
unfolding set_state write
link-Frames h p q n e = record {
  all_next = λ a. ground arith;
  runs = λ a. ground arith;
  can_run = λ a. ground arith;
}

unlink-Frames :
    (f : ℕ) (h g : Tasks) (best n prev : Ptr) → unlink f h best n prev ≡ ok g → Frames h g
unfolding unlink
unlink-Frames zero h g best n prev e = cc
unlink-Frames (suc f) h g best n prev e =
    let (t, loads, e₁) = >>=-eq-ok (load h prev) _ g e in
    let (q, waits, e₂) = >>=-eq-ok (wait_next_of t.state) _ g e₁ in
    let at = ap (λ u. u.state) (sym (load-eq-ok h prev t loads).1) ∙ blocked_of t.state q waits in
    elim (Bool-cases (q == best)) [
      | inl c ↦ subst (Frames h) (ok-injective _ g (rw c at e₂)) (link-Frames h prev q n at)
      | inr c ↦ unlink-Frames f h g best n q (rw c at e₂)
    ]

third : (r s : Ptr × Ptr × Tasks) → ok r ≡ ok s → r.2 ≡ s.2
third r s e = ap (λ (q : Ptr × Ptr × Tasks). q.2) (ok-injective r s e)

pub pop-Frames :
    (f : ℕ) (h g : Tasks) (head b head' : Ptr)
    → wait_list_pop_highest f h head ≡ ok (b, head', g)
    → Frames h g
unfolding wait_list_pop_highest
pop-Frames f h g head b head' e = elim (Bool-cases (head == null)) [
  | inl n ↦ subst (Frames h) (third (null, head, h) (b, head', g) (rw n at e)) (Frames-refl h)
  | inr n ↦
      let (head_next, _, e₁) =
        >>=-eq-ok (wait_next_of (h head).state) _ (b, head', g) (rw n at e) in
      let (best, _, e₂) =
        >>=-eq-ok (scan f h head (h head).priority head_next) _ (b, head', g) e₁ in
      let (best_next, _, e₃) = >>=-eq-ok (wait_next_of (h best).state) _ (b, head', g) e₂ in
      elim (Bool-cases (best == head)) [
        | inl c ↦
            subst (Frames h) (third (best, best_next, h) (b, head', g) (rw c at e₃)) (Frames-refl h)
        | inr c ↦
            let (h', unlinks, e₄) =
              >>=-eq-ok (unlink f h best best_next head) _ (b, head', g) (rw c at e₃) in
            subst (Frames h) (third (best, head, h') (b, head', g) e₄)
              (unlink-Frames f h h' best best_next head unlinks)
      ]
]

pub set_wait_ptr-Frames : (h : Tasks) (p n : ℕ) → Frames h (set_wait_ptr h p n)
unfolding set_wait_ptr write
set_wait_ptr-Frames h p n = record {
  all_next = λ a. ground arith;
  runs = λ a. ground arith;
  can_run = λ a. ground arith;
}

pub set_priority-Frames : (h : Tasks) (p n : ℕ) → Frames h (set_priority h p n)
unfolding set_priority write
set_priority-Frames h p n = record {
  all_next = λ a. ground arith;
  runs = λ a. ground arith;
  can_run = λ a. ground arith;
}

pub cut-Frames : (h : Tasks) (head prev n : Ptr) → Frames h (cut h head prev n).1
unfolding cut set_state write
cut-Frames h head prev n = record {
  all_next = λ a. ground arith;
  runs = λ a. ground arith;
  can_run = λ a. ground arith;
}

-- What `unblock` leaves, if it returns.
pub unblock-eq-ok :
    (k g : Kernel) (t : Ptr) (need : Bool)
    → unblock k t ≡ ok (need, g)
    → record k { tasks = set_state k.tasks t (ready (k.tasks t).time_slice) } ≡ g
unfolding unblock
unblock-eq-ok k g t need e =
    let (u, loads, e₁) = >>=-eq-ok (load k.tasks t) _ (need, g) e in
    let h = set_state k.tasks t (ready u.time_slice) in
    let (c, _, e₂) = >>=-eq-ok (load h k.current) _ (need, g) e₁ in
    let same : record k { tasks = h } ≡ g =
      ap (λ (r : Bool × Kernel). r.1)
        (ok-injective (ltb u.priority c.priority, record k { tasks = h }) (need, g) e₂) in
    ap (λ (v : Tcb). record k { tasks = set_state k.tasks t (ready v.time_slice) })
      (sym (load-eq-ok k.tasks t u loads).1)
    ∙ same
