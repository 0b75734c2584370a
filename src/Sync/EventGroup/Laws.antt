-- ===== src/Sync/EventGroup/Laws.antt =====
-- What a wait does to an event group, alone and behind a `set`.
use Prim.Native.Nat.{bit_and, bit_or}
use kangaroos.Base.{ℕ, suc, ◌%◌, ◌^◌, ◌≡◌, ◌≢◌, refl, ap, ◌∙◌, List, [], ◌∷◌, ◌∉◌, ==-false_of_ne}
use kangaroos.Run.{ok}
use kangaroos.Tcb.{
  null, Tasks, blocked, load, set_state, set_state_self, set_wait_ptr, set_wait_ptr-state,
  set_wait_ptr_self,
}
use kangaroos.Kernel.{Kernel, trigger_pendsv}
use kangaroos.WaitList.{block_and_push}
use kangaroos.WaitList.Links.{first, Links, Links-frame, Links-set_state}
use kangaroos.WaitList.Push.{push-eq, push-Links}
use kangaroos.Sync.EventGroup.{
  EventGroup, and_not, scan_any, scan_all, set_from_isr, set, wait_any, wait_any_result,
}

-- The tasks `xs` wait for any and the tasks `ys` for all of their flags.
pub record IsEventGroup (e : EventGroup) (k : Kernel) (xs ys : List ℕ) : Type 0 where
  pub any_head : e.wait_any_head ≡ first xs
  pub all_head : e.wait_all_head ≡ first ys
  pub any_links : Links k.tasks xs
  pub all_links : Links k.tasks ys

module _ (e : EventGroup) (k : Kernel) (mask : ℕ) (on_cpu : k.current ≢ null) where
  masked : Tasks
  masked = set_wait_ptr k.tasks k.current mask

  -- The memory in which the current task waits in front of `xs`, with its mask.
  pub parked : List ℕ → Tasks
  unfolding masked
  parked xs = set_state masked k.current (blocked (first xs))

  masked-Links : (xs : List ℕ) → Links k.tasks xs → Links masked xs
  unfolding masked
  masked-Links xs l =
      Links-frame k.tasks masked xs (λ a i. set_wait_ptr-state k.tasks k.current mask a) l

  -- A wait for any of flags none of which is set blocks the caller in front of the tasks that wait for
  -- any flag, with its mask in `wait_ptr`; both lists are well linked again.
  pub wait_any_blocks :
      (xs ys : List ℕ)
      → IsEventGroup e k xs ys
      → bit_and e.bits mask ≡ 0
      → k.current ∉ xs
      → k.current ∉ ys
      → (wait_any e k mask
          ≡ ok (
            record e { wait_any_head = k.current },
            trigger_pendsv (record k { tasks = parked xs }),
          ))
        × ((parked xs k.current).wait_ptr ≡ mask)
        × IsEventGroup
            (record e { wait_any_head = k.current })
            (record k { tasks = parked xs })
            (k.current ∷ xs)
            ys
  unfolding wait_any load parked masked
  wait_any_blocks xs ys is none_set out_any out_all = (
    rw
        (
          ==-false_of_ne k.current 0 on_cpu,
          none_set,
          ap (λ p. block_and_push masked p k.current) is.any_head
              ∙ push-eq masked k.current xs on_cpu,
        )
        refl,
    ap (λ t. t.wait_ptr) (set_state_self masked k.current (blocked (first xs)))
        ∙ ap (λ t. t.wait_ptr) (set_wait_ptr_self k.tasks k.current mask),
    record {
      any_head = refl;
      all_head = is.all_head;
      any_links = push-Links masked k.current xs on_cpu out_any (masked-Links xs is.any_links);
      all_links =
          Links-set_state masked k.current (blocked (first xs)) ys out_all
            (masked-Links ys is.all_links);
    },
  )

  -- Without tasks that wait, a `set` and a wait for any of flags one of which is then set return at
  -- once with those flags, and the wait clears them and no others.
  pub set-wait_any :
      (f new_bits : ℕ)
      → IsEventGroup e k [] []
      → bit_and (bit_or e.bits new_bits) mask ≢ 0
      → (e₁ e₂ : EventGroup) × (k₂ : Kernel) × (set (suc f) e k new_bits
          ≡ ok (bit_or e.bits new_bits, e₁, k))
        × (wait_any e₁ k mask ≡ ok (e₂, k₂))
        × (wait_any_result k₂ ≡ ok (bit_and (bit_or e.bits new_bits) mask % 2 ^ 32))
        × (e₂.bits ≡ and_not (bit_or e.bits new_bits) (bit_and (bit_or e.bits new_bits) mask))
  unfolding set set_from_isr scan_any scan_all wait_any wait_any_result load
  set-wait_any f new_bits is some_set =
      let bits = bit_or e.bits new_bits in
      let matched = bit_and bits mask in
      (
        record e { bits = bits },
        record e { bits = and_not bits matched },
        record k { tasks = set_wait_ptr k.tasks k.current matched },
        rw (is.any_head, is.all_head) refl,
        rw (==-false_of_ne k.current 0 on_cpu, ==-false_of_ne matched 0 some_set) refl,
        rw (==-false_of_ne k.current 0 on_cpu)
            (ap (λ t. ok (t.wait_ptr % 2 ^ 32)) (set_wait_ptr_self k.tasks k.current matched)),
        refl,
      )
