-- ===== src/Rm/Requested.antt =====
-- What a request does to the consumer that it is made to.
use postmarketos_x00td_cellu.Common.{
  ℕ, zero, suc, ◌≡◌, refl, sym, subst, inl, inr, Bool, false, some, arith, Bool-cases,
  if◌then◌else◌,
}
use postmarketos_x00td_cellu.Common.Int.{ℤ, pos, negsuc, is_zero}
use postmarketos_x00td_cellu.Rm.PeersList.{incr, decr}
use postmarketos_x00td_cellu.Rm.Consumer.{
  consumer_request, request_turn, start_request, request_work, plus_usage, plus_bw, minus_bw,
  minus_usage,
}
use postmarketos_x00td_cellu.Rm.Outcome.{
  Ends, Ends-then, Moves, Turned, IsError, Answer-cases, put-Moves,
}
use postmarketos_x00td_cellu.Rm.Heap.{
  ResourceState, released, request_in_progress, granted, release_in_progress, Cons, consumer, Heap,
  Drivers, put, cons_state, einprogress, is_leaving, add_u32, sub_u32, call, enable_clks_no_block,
}

abbrev pub more_users : Bool → ℤ → ℤ
unfolding incr
more_users inc u = if inc then incr u else u

-- What a request may come to.
pub data Verdict (c : Cons) (bw : ℕ) (inc : Bool) (r : ℤ) (c' : Cons) : Type 0 where
  grants :
      r ≡ pos 0
      → Turned c c' granted (more_users inc c.usage_count) (add_u32 c.resource.needed_bw bw)
      → Verdict c bw inc r c'
  waits :
      r ≡ einprogress
      → Turned c c' request_in_progress
          (more_users inc c.usage_count)
          (add_u32 c.resource.needed_bw bw)
      → Verdict c bw inc r c'
  refuses :
      IsError r
      → Turned c c' c.resource.state c.usage_count (sub_u32 (add_u32 c.resource.needed_bw bw) bw)
      → Verdict c bw inc r c'

incr-decr : (u : ℤ) → incr (decr u) ≡ u
unfolding incr decr
incr-decr (pos zero) = refl
incr-decr (pos (suc k)) = refl
incr-decr (negsuc zero) = refl
incr-decr (negsuc (suc k)) = refl

module _ (d : Drivers) (n bw : ℕ) (inc : Bool) where
  -- Where the request has been booked in `h1`, and the consumer is requested.
  abbrev Booked : Cons → Cons → Heap → Heap → Type 0
  Booked c c1 h h1 =
      Moves n c1 h.object h1.object
      × Turned c c1 request_in_progress c.usage_count (add_u32 c.resource.needed_bw bw)

  abbrev Judged : Cons → Heap → ℤ → Heap → Type 0
  Judged c h r h2 =
      (c2 : Cons) × Moves n c2 h.object h2.object × Verdict c bw inc r (plus_usage inc c2)

  request_work-Ends :
      (c c1 : Cons) (h h1 : Heap)
      → Booked c c1 h h1
      → Ends (request_work d n c.resource.state bw false inc h1) (Judged c h)
  unfolding request_work incr decr plus_usage minus_usage
  request_work-Ends c c1 h h1 (m, t) = elim (Answer-cases (d.request_answer h1.calls n)) [
    | inl z ↦
        rw (m.there, z)
          (
            cons_state c1 granted,
            put-Moves n _ h.object h1.object m.elsewhere,
            grants refl (ground arith),
          )
    | inr (inl z) ↦ rw (m.there, z) (c1, m, waits refl (ground arith))
    | inr (inr (a, b)) ↦
        rw (m.there, a, b)
          (
            minus_usage inc (minus_bw (cons_state c1 c.resource.state) bw),
            put-Moves n _ h.object h1.object m.elsewhere,
            refuses (a, b) (ground (arith, incr-decr c.usage_count)),
          )
  ]

  start_request-Ends :
      (c : Cons) (h h1 : Heap)
      → Moves n (plus_bw c bw) h.object h1.object
      → Ends (start_request d n (plus_bw c bw) c.resource.state bw inc h1) (Judged c h)
  unfolding start_request incr decr plus_usage minus_usage
  start_request-Ends c h h1 m =
      let c1 = record (cons_state (plus_bw c bw) request_in_progress) { completed = false } in
      let b : Booked c c1 h (put n (consumer c1) h1) =
        (put-Moves n c1 h.object h1.object m.elsewhere, ground arith) in
      elim (Bool-cases (is_leaving c.resource.state)) [
        | inl y ↦ rw y (c1, b.0, waits refl (ground (arith, b.1)))
        | inr z ↦ elim (Bool-cases (is_zero (d.enable_clks_answer h1.calls n))) [
          | inl u ↦
              rw (z, u)
                (request_work-Ends c c1 h (call (enable_clks_no_block n) (put n (consumer c1) h1))
                  b)
          | inr v ↦ rw (z, v) (c1, b.0, waits refl (ground (arith, b.1)))
        ]
      ]

  request_turn-Ends :
      (c : Cons) (h h1 : Heap)
      → (s : ResourceState) → s ≡ c.resource.state
      → Moves n (plus_bw c bw) h.object h1.object
      → Ends (request_turn d n (plus_bw c bw) s bw inc false h1) (Judged c h)
  unfolding request_turn incr plus_usage minus_usage
  request_turn-Ends c h h1 released e m =
      subst (λ s. Ends (start_request d n (plus_bw c bw) s bw inc h1) (Judged c h)) (sym e)
        (start_request-Ends c h h1 m)
  request_turn-Ends c h h1 release_in_progress e m =
      subst (λ s. Ends (start_request d n (plus_bw c bw) s bw inc h1) (Judged c h)) (sym e)
        (start_request-Ends c h h1 m)
  request_turn-Ends c h h1 granted e m = (plus_bw c bw, m, grants refl (ground arith))
  request_turn-Ends c h h1 request_in_progress e m = (plus_bw c bw, m, waits refl (ground arith))

  -- A request of a consumer, from any state, which does not wake its client, returns and changes no
  -- other resource. On 0 the consumer is granted, on -EINPROGRESS its request is in progress, and both
  -- times a user and the bandwidth are added where they are to be counted; on another result, the state
  -- and the users are as before and the bandwidth is taken off again.
  pub consumer_request-Ends :
      (c : Cons) (h : Heap)
      → h.object n ≡ some (consumer c)
      → Ends
          (consumer_request d n bw inc false h)
          λ r h'. (c' : Cons) × Moves n c' h.object h'.object × Verdict c bw inc r c'
  unfolding consumer_request plus_usage minus_usage
  consumer_request-Ends c h e =
      let h1 = put n (consumer (plus_bw c bw)) h in
      rw e (
        Ends-then (request_turn d n (plus_bw c bw) c.resource.state bw inc false h1) _ _
          (request_turn-Ends c h h1 c.resource.state refl
            (put-Moves n (plus_bw c bw) h.object h.object (λ m o. refl)))
          λ r h2 (c2, m, v).
            rw (m.there) (
              plus_usage inc c2,
              put-Moves n (plus_usage inc c2) h.object h2.object m.elsewhere,
              v,
            ))
