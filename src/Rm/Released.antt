-- ===== src/Rm/Released.antt =====
-- What a release does to the consumer that it is made to.
use postmarketos_x00td_cellu.Common.{
  ℕ, zero, suc, ◌≡◌, refl, sym, ap, ◌∙◌, subst, ◌⊎◌, inl, inr, Bool, true, false, ◌&&◌, some,
  ==-refl, ==-ne, arith, Bool-cases, if◌then◌else◌,
}
use postmarketos_x00td_cellu.Common.Int.{ℤ, pos, negsuc, is_zero}
use postmarketos_x00td_cellu.Rm.PeersList.{decr, positive}
use postmarketos_x00td_cellu.Rm.Consumer.{
  consumer_release, release_turn, release_work, start_release, minus_bw, minus_usage,
}
use postmarketos_x00td_cellu.Rm.Outcome.{Ends, Moves, Turned, IsError, Answer-cases, put-Moves}
use postmarketos_x00td_cellu.Rm.Heap.{
  ResourceState, released, request_in_progress, granted, release_in_progress, Cons, consumer, Heap,
  Drivers, update, put, cons_state, einprogress, sub_u32, call, suspend_resource_no_block,
}

-- The count of users is not lowered below 0.
abbrev pub fewer_users : Bool → ℤ → ℤ
unfolding decr positive
fewer_users dec u = if dec && positive u then decr u else u

-- A consumer with users.
pub data IsHeld : ResourceState → Type 0 where
  held_granted : IsHeld granted
  held_requested : IsHeld request_in_progress

-- What a release may come to.
pub data Release (c : Cons) (bw : ℕ) (dec : Bool) (r : ℤ) (c' : Cons) : Type 0 where
  idle :
      c.resource.state ≡ released
      → r ≡ pos 0
      → Turned c c' released c.usage_count (sub_u32 c.resource.needed_bw bw)
      → Release c bw dec r c'
  still_used :
      IsHeld c.resource.state
      → is_zero (fewer_users dec c.usage_count) ≡ false
      → r ≡ pos 0
      → Turned c c' c.resource.state
          (fewer_users dec c.usage_count)
          (sub_u32 c.resource.needed_bw bw)
      → Release c bw dec r c'
  leaves :
      (c.resource.state ≡ release_in_progress)
        ⊎ (IsHeld c.resource.state × (fewer_users dec c.usage_count ≡ pos 0))
      → r ≡ einprogress
      → Turned c c' release_in_progress
          (fewer_users dec c.usage_count)
          (sub_u32 c.resource.needed_bw bw)
      → Release c bw dec r c'
  drops :
      c.resource.state ≡ granted
      → fewer_users dec c.usage_count ≡ pos 0
      → r ≡ pos 0
      → Turned c c' released (pos 0) (sub_u32 c.resource.needed_bw bw)
      → Release c bw dec r c'
  fails :
      c.resource.state ≡ granted
      → fewer_users dec c.usage_count ≡ pos 0
      → IsError r
      → Turned c c' granted (pos 0) (sub_u32 c.resource.needed_bw bw)
      → Release c bw dec r c'

is_zero-pos : (u : ℤ) → is_zero u ≡ true → u ≡ pos 0
is_zero-pos (pos zero) e = refl
is_zero-pos (pos (suc k)) e = absurd (ground arith)
is_zero-pos (negsuc k) e = absurd (ground arith)

module _ (d : Drivers) (n bw : ℕ) (dec : Bool) where
  abbrev Judged : Cons → Heap → ℤ → Heap → Type 0
  Judged c h r h' = (c' : Cons) × Moves n c' h.object h'.object × Release c bw dec r c'

  -- Where the last user of a granted consumer is gone in `h1`.
  release_work-Ends :
      (c c1 : Cons) (h h1 : Heap)
      → Moves n c1 h.object h1.object
      → c.resource.state ≡ granted
      → fewer_users dec c.usage_count ≡ pos 0
      → Turned c c1 release_in_progress (pos 0) (sub_u32 c.resource.needed_bw bw)
      → Ends (release_work d n granted false h1) (Judged c h)
  unfolding release_work decr positive minus_usage
  release_work-Ends c c1 h h1 m g u t =
      let c2 = record (cons_state c1 released) { completed = true } in
      let twice : Moves n c2 h.object (
          update (update h1.object n (some (consumer (cons_state c1 released)))) n
            (some (consumer c2))) =
        put-Moves n c2 h.object (update h1.object n (some (consumer (cons_state c1 released))))
          (λ k o. rw (==-ne n k o) (m.elsewhere k o)) in
      elim (Answer-cases (d.release_answer h1.calls n)) [
        | inl z ↦ rw (m.there, z, ==-refl n) (c2, twice, drops g u refl (ground arith))
        | inr (inl z) ↦ rw (m.there, z, ==-refl n) (c2, twice, drops g u refl (ground arith))
        | inr (inr (a, b)) ↦
            rw (m.there, a, b)
              (
                cons_state c1 granted,
                put-Moves n _ h.object h1.object m.elsewhere,
                fails g u (a, b) (ground arith),
              )
      ]

  -- Of the last user, in a state in which the consumer is held.
  start_release-Ends :
      (c c1 : Cons) (h h1 : Heap) (s : ResourceState)
      → IsHeld s
      → s ≡ c.resource.state
      → Moves n (minus_bw c bw) h.object h1.object
      → fewer_users dec c.usage_count ≡ pos 0
      → Turned c c1 c.resource.state
          (fewer_users dec c.usage_count)
          (sub_u32 c.resource.needed_bw bw)
      → Ends (start_release d n c1 s bw h1) (Judged c h)
  unfolding start_release decr positive minus_usage
  start_release-Ends c c1 h h1 released held e m u t = elim held [ ]
  start_release-Ends c c1 h h1 release_in_progress held e m u t = elim held [ ]
  start_release-Ends c c1 h h1 request_in_progress held_requested e m u t =
      let c2 = cons_state c1 release_in_progress in
      (
        c2,
        put-Moves n c2 h.object h1.object m.elsewhere,
        leaves (inr (subst IsHeld e held_requested, u)) refl (ground arith),
      )
  start_release-Ends c c1 h h1 granted held_granted e m u t =
      let c2 = cons_state c1 release_in_progress in
      let h2 = put n (consumer c2) h1 in
      let b : Moves n c2 h.object h2.object = put-Moves n c2 h.object h1.object m.elsewhere in
      elim (Bool-cases (is_zero (d.suspend_answer h2.calls n))) [
        | inl x ↦ rw x (
            release_work-Ends c c2 h (call (suspend_resource_no_block n) h2) b (sym e) u
              (ground arith))
        | inr y ↦ rw y (c2, b, leaves (inr (subst IsHeld e held_granted, u)) refl (ground arith))
      ]

  -- What `release_turn` has stored before it looks at the count.
  abbrev left : Cons → Cons
  unfolding decr positive minus_usage
  left c = minus_usage (dec && positive c.usage_count) (minus_bw c bw)

  left-Turned :
      (c : Cons)
      → Turned c
          (left c)
          c.resource.state
          (fewer_users dec c.usage_count)
          (sub_u32 c.resource.needed_bw bw)
  unfolding decr positive minus_usage
  left-Turned c = elim (Bool-cases (dec && positive c.usage_count)) [
    | inl x ↦ rw x (ground arith)
    | inr y ↦ rw y (ground arith)
  ]

  last_user :
      (c : Cons) → is_zero (left c).usage_count ≡ true → fewer_users dec c.usage_count ≡ pos 0
  last_user c x = sym ((left-Turned c).usage_count) ∙ is_zero-pos _ x

  used_on :
      (c : Cons) (h h1 : Heap) (s : ResourceState)
      → IsHeld s
      → s ≡ c.resource.state
      → Moves n (minus_bw c bw) h.object h1.object
      → is_zero (left c).usage_count ≡ false
      → Judged c h (pos 0) (put n (consumer (left c)) h1)
  used_on c h h1 s held e m y = (
    left c,
    put-Moves n (left c) h.object h1.object m.elsewhere,
    still_used (subst IsHeld e held) (ap is_zero (sym (left-Turned c).usage_count) ∙ y) refl
        (left-Turned c),
  )

  release_turn-Ends :
      (c : Cons) (h h1 : Heap) (s : ResourceState)
      → s ≡ c.resource.state
      → Moves n (minus_bw c bw) h.object h1.object
      → Ends (release_turn d n (minus_bw c bw) s bw dec h1) (Judged c h)
  unfolding release_turn positive decr minus_usage
  release_turn-Ends c h h1 released e m = (minus_bw c bw, m, idle (sym e) refl (ground arith))
  release_turn-Ends c h h1 release_in_progress e m = (
    left c,
    put-Moves n (left c) h.object h1.object m.elsewhere,
    leaves (inl (sym e)) refl (ground (arith, left-Turned c)),
  )
  release_turn-Ends c h h1 granted e m = elim (Bool-cases (is_zero (left c).usage_count)) [
    | inl x ↦ rw x (
        start_release-Ends c (left c) h h1 granted held_granted e m (last_user c x) (left-Turned c))
    | inr y ↦ rw y (used_on c h h1 granted held_granted e m y)
  ]
  release_turn-Ends c h h1 request_in_progress e m =
      elim (Bool-cases (is_zero (left c).usage_count)) [
        | inl x ↦ rw x (
            start_release-Ends c (left c) h h1 request_in_progress held_requested e m
              (last_user c x) (left-Turned c))
        | inr y ↦ rw y (used_on c h h1 request_in_progress held_requested e m y)
      ]

  -- A release of a consumer, from any state, returns and changes no other resource. One that is released
  -- stays so, with its users; one that is held keeps its state while users are left; one without users
  -- left is being released on -EINPROGRESS, released on 0, which only a granted one can be at once, and
  -- on an error of the driver granted; one that is being released already stays so, on -EINPROGRESS. The
  -- users are not lowered below 0, and the bandwidth is taken off.
  pub consumer_release-Ends :
      (c : Cons) (h : Heap)
      → h.object n ≡ some (consumer c)
      → Ends (consumer_release d n bw dec h) (Judged c h)
  unfolding consumer_release minus_usage
  consumer_release-Ends c h e = rw e (
      release_turn-Ends c h (put n (consumer (minus_bw c bw)) h) c.resource.state refl
        (put-Moves n (minus_bw c bw) h.object h.object (λ m o. refl)))
