-- ===== src/Sync/EventGroup/Set.antt =====
-- `set` with any lists of tasks that wait.
use Prim.Native.Nat.{bit_and, bit_or}
use kangaroos.Base.{
  ℕ, zero, suc, ◌%◌, ◌^◌, ◌<◌, ◌≡◌, ◌≢◌, refl, sym, ap, ap₂, fun_ext, ◌∙◌, Bool, false, not, ◌||◌,
  List, [], ◌∈◌, ◌∉◌, has, Bool-cases, inl, inr, false≢true, some, none, length, arith, ◌==◌,
  if◌then◌else◌,
}
use kangaroos.Run.{ok, ◌>>=◌}
use kangaroos.Tcb.{Ptr, null, Tcb, Tasks, set_wait_ptr, write, wait_next_of}
use kangaroos.Kernel.{Kernel, trigger_pendsv_if}
use kangaroos.WaitList.Links.{first, Links-frame}
use kangaroos.WaitList.Pop.{prio}
use kangaroos.Scheduler.{unblock}
use kangaroos.Sync.EventGroup.{EventGroup, task_mask, cut, scan_any, scan_all, set_from_isr, set}
use kangaroos.Sync.EventGroup.Laws.{IsEventGroup}
use kangaroos.Sync.EventGroup.Scan.{
  left, rest, taken, urgent, loop, Scanned, mem-rest, taken-mem, taken-rest, awake, scan_ok,
  Scanned-prio,
}
use kangaroos.Sync.EventGroup.Scan.Loop.{loop_lem}

-- A task that waits for any of its flags takes those that are set, and finds them in its control block.
abbrev pub any_hit : ℕ → ℕ → Bool
any_hit bits mask = not (bit_and bits mask == 0)

abbrev pub any_told : ℕ → ℕ → ℕ
any_told old v = v

-- A task that waits for all of its flags takes them.
abbrev pub all_hit : ℕ → ℕ → Bool
all_hit bits mask = bit_and bits mask == mask

abbrev pub all_takes : ℕ → ℕ → ℕ
all_takes bits mask = mask

abbrev pub all_told : ℕ → ℕ → ℕ
all_told old v = old

same_wait_ptr : (h : Tasks) (x : ℕ) → set_wait_ptr h x (h x).wait_ptr ≡ h
unfolding set_wait_ptr write
same_wait_ptr h x = fun_ext λ a. ground arith

scan_any-loop :
    (f bits : ℕ) (head prev cur : Ptr) (p : Bool) (k : Kernel)
    → scan_any f bits head prev cur p k ≡ loop any_hit bit_and any_told f bits head prev cur p k
unfolding scan_any loop
scan_any-loop zero bits head prev cur p k = refl
scan_any-loop (suc f) bits head prev cur p k =
    ap
      (λ F. if cur == null then ok (bits, head, p, k) else (wait_next_of (k.tasks cur).state >>= F))
      (fun_ext λ next.
        ap₂ (λ a b. if any_hit bits (task_mask k.tasks cur) then a else b)
          (ap
            (λ G.
              unblock
                (record k {
                  tasks =
                      set_wait_ptr (cut k.tasks head prev next).1 cur
                        (bit_and bits (task_mask k.tasks cur));
                })
                cur
              >>= G)
            (fun_ext λ r. scan_any-loop f _ _ _ _ _ _))
          (scan_any-loop f _ _ _ _ _ _))

scan_all-loop :
    (f bits : ℕ) (head prev cur : Ptr) (p : Bool) (k : Kernel)
    → scan_all f bits head prev cur p k ≡ loop all_hit all_takes all_told f bits head prev cur p k
unfolding scan_all loop
scan_all-loop zero bits head prev cur p k = refl
scan_all-loop (suc f) bits head prev cur p k =
    ap
      (λ F. if cur == null then ok (bits, head, p, k) else (wait_next_of (k.tasks cur).state >>= F))
      (fun_ext λ next.
        ap₂ (λ a b. if all_hit bits (task_mask k.tasks cur) then a else b)
          (ap₂ (λ h G. unblock (record k { tasks = h }) cur >>= G)
            (sym (same_wait_ptr (cut k.tasks head prev next).1 cur))
            (fun_ext λ r. scan_all-loop f _ _ _ _ _ _))
          (scan_all-loop f _ _ _ _ _ _))

same_fields :
    (t u v : Tcb) → t ≡ u → u ≡ record v { state = u.state } → t ≡ record v { state = t.state }
same_fields t u v e w = e ∙ w ∙ ap (λ (c : Tcb). record v { state = c.state }) (sym e)

module _ (f : ℕ) (e : EventGroup) (k : Kernel) (mask : ℕ) (xs ys : List ℕ)
    (is : IsEventGroup e k xs ys) (running : k.current ≢ null) (apart : (a : ℕ) → a ∈ xs → a ∉ ys)
    (fuel_any : length xs < f) (fuel_all : length ys < f) where
  abbrev m : ℕ → ℕ
  m a = task_mask k.tasks a

  abbrev bits : ℕ
  bits = bit_or e.bits mask

  -- The flags and the lists that the scans leave.
  abbrev any_left : ℕ
  any_left = left any_hit bit_and any_told m bits xs

  abbrev pub any_rest : List ℕ
  any_rest = rest any_hit bit_and any_told m bits xs

  abbrev pub all_left : ℕ
  all_left = left all_hit all_takes all_told m any_left ys

  abbrev pub all_rest : List ℕ
  all_rest = rest all_hit all_takes all_told m any_left ys

  abbrev AnyScanned : Kernel → Type 0
  AnyScanned g = Scanned any_hit bit_and any_told k m bits [] xs g

  abbrev AllScanned : Kernel → Kernel → Type 0
  AllScanned k₁ g = Scanned all_hit all_takes all_told k₁ m any_left [] ys g

  abbrev switch : Bool
  switch =
      urgent any_hit bit_and any_told m (prio k.tasks) (prio k.tasks k.current) bits xs
      || urgent all_hit all_takes all_told m (prio k.tasks) (prio k.tasks k.current) any_left ys

  abbrev pub set_group : EventGroup
  set_group = record {
    bits = all_left;
    wait_any_head = first any_rest;
    wait_all_head = first all_rest;
  }

  not_any : (a : ℕ) → a ∈ ys → a ∉ xs
  not_any a i = elim (Bool-cases (has a xs)) [
    | inl j ↦ absurd (false≢true (sym (apart a j) ∙ i))
    | inr n ↦ n
  ]

  -- What the scans leave of the kernel.
  pub record AfterSet (g : Kernel) : Type 0 where
    pub any_woken :
        (a v : ℕ)
        → taken any_hit bit_and any_told m bits xs a ≡ some v
        → g.tasks a ≡ awake any_hit bit_and any_told (k.tasks a) v
    pub all_woken :
        (a v : ℕ)
        → taken all_hit all_takes all_told m any_left ys a ≡ some v
        → g.tasks a ≡ awake all_hit all_takes all_told (k.tasks a) v
    pub any_waits :
        (a : ℕ)
        → a ∈ xs
        → taken any_hit bit_and any_told m bits xs a ≡ none
        → (a ∈ any_rest) × (g.tasks a ≡ record (k.tasks a) { state = (g.tasks a).state })
    pub all_waits :
        (a : ℕ)
        → a ∈ ys
        → taken all_hit all_takes all_told m any_left ys a ≡ none
        → (a ∈ all_rest) × (g.tasks a ≡ record (k.tasks a) { state = (g.tasks a).state })
    pub others : (a : ℕ) → a ∉ xs → a ∉ ys → g.tasks a ≡ k.tasks a
    pub group : IsEventGroup set_group g any_rest all_rest
    pub current : g.current ≡ k.current
    pub tick : g.tick ≡ k.tick
    pub all_tasks : g.all_tasks ≡ k.all_tasks
    pub pendsv : g.pendsv ≡ k.pendsv

  scans : (k₁ g : Kernel) → AnyScanned k₁ → AllScanned k₁ g → AfterSet g
  scans k₁ g s t =
      let keep = λ (a : ℕ) (i : a ∈ ys). s.others a refl (not_any a i) in
      record {
        any_woken = λ a v w.
            t.others a refl (apart a (taken-mem any_hit bit_and any_told m bits xs a v w))
            ∙ s.woken a v w;
        all_woken = λ a v w.
            t.woken a v w
            ∙ ap (λ c. awake all_hit all_takes all_told c v)
                (keep a (taken-mem all_hit all_takes all_told m any_left ys a v w));
        any_waits = λ a i w. (
          taken-rest any_hit bit_and any_told m bits xs a i w,
          same_fields (g.tasks a) (k₁.tasks a) (k.tasks a) (t.others a refl (apart a i))
              (s.waits a w),
        );
        all_waits = λ a i w. (
          taken-rest all_hit all_takes all_told m any_left ys a i w,
          t.waits a w ∙ ap (λ (c : Tcb). record c { state = (g.tasks a).state }) (keep a i),
        );
        others = λ a out out'. t.others a refl out' ∙ s.others a refl out;
        group = record {
          any_head = refl;
          all_head = refl;
          any_links =
              Links-frame k₁.tasks g.tasks any_rest
                (λ a i.
                  ap (λ c. c.state)
                    (t.others a refl (apart a (mem-rest any_hit bit_and any_told m bits xs a i))))
                s.links;
          all_links = t.links;
        };
        current = t.current ∙ s.current;
        tick = t.tick ∙ s.tick;
        all_tasks = t.all_tasks ∙ s.all_tasks;
        pendsv = t.pendsv ∙ s.pendsv;
      }

  any_scan :
      (k₁ : Kernel) × (scan_any f bits e.wait_any_head null e.wait_any_head false k
        ≡ scan_ok any_left any_rest
            (urgent any_hit bit_and any_told m (prio k.tasks) (prio k.tasks k.current) bits xs)
            k₁)
      × AnyScanned k₁
  any_scan =
      let (k₁, returns, s) =
        loop_lem any_hit bit_and any_told f bits [] xs false k m is.any_links running (λ a i. refl)
          fuel_any in
      (k₁, scan_any-loop f bits _ null _ false k ∙ rw is.any_head returns, s)

  all_scan :
      (k₁ : Kernel) (p : Bool)
      → AnyScanned k₁
      → (g : Kernel) × (scan_all f any_left e.wait_all_head null e.wait_all_head p k₁
          ≡ scan_ok all_left all_rest
              (p
                || urgent all_hit all_takes all_told m
                    (prio k.tasks)
                    (prio k.tasks k.current)
                    any_left
                    ys)
              g)
        × AllScanned k₁ g
  all_scan k₁ p s =
      let keep = λ (a : ℕ) (i : a ∈ ys). s.others a refl (not_any a i) in
      let (g, returns, t) =
        loop_lem all_hit all_takes all_told f any_left [] ys p k₁ m
          (Links-frame k.tasks k₁.tasks ys (λ a i. ap (λ c. c.state) (keep a i)) is.all_links)
          (λ z. running (sym s.current ∙ z)) (λ a i. ap (λ c. c.wait_ptr % 2 ^ 32) (keep a i))
          fuel_all in
      let same =
        ap₂ (λ pr c. urgent all_hit all_takes all_told m pr (pr c) any_left ys)
          (Scanned-prio any_hit bit_and any_told k m bits [] xs k₁ s) s.current in
      (
        g,
        scan_all-loop f any_left _ null _ p k₁
            ∙ rw is.all_head returns
            ∙ ap (λ u. scan_ok all_left all_rest (p || u) g) same,
        t,
      )

  -- While a task runs, `set` on an event group whose two lists have no task in common ends without a fault. In the order of their list, each
  -- task that waits for any of its flags and finds some of them set takes these and is ready, with what it
  -- took in `wait_ptr`; then each task that waits for all of its flags and finds them set takes them and is
  -- ready. No other task changes, but for the links of those that still wait, and the flags that are left
  -- are returned. It triggers PendSV exactly if a woken task has a higher priority than the current one.
  pub set_lem :
      (g : Kernel) × (set f e k mask ≡ ok (all_left, set_group, trigger_pendsv_if switch g))
      × AfterSet g
  unfolding set set_from_isr
  set_lem =
      let (k₁, any_returns, s) = any_scan in
      let (g, all_returns, t) =
        all_scan k₁
          (urgent any_hit bit_and any_told m (prio k.tasks) (prio k.tasks k.current) bits xs) s in
      (g, rw (any_returns, all_returns) refl, scans k₁ g s t)
