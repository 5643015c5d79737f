-- ===== src/Rm/Consumer.antt =====
-- ipa_rm_resource.c: the requests and releases of a consumer. A consumer's driver is called by
-- request_work and release_work, at once or by the queue.
use postmarketos_x00td_cellu.Common.{
  ℕ, Bool, true, false, not, ◌&&◌, ◌||◌, Option, some, if◌then◌else◌,
}
use postmarketos_x00td_cellu.Common.Fault.{◌>>=◌}
use postmarketos_x00td_cellu.Common.Int.{ℤ, pos, is_zero}
use postmarketos_x00td_cellu.Rm.PeersList.{incr, decr, positive}
use postmarketos_x00td_cellu.Rm.Callbacks.{consumer_handle_cb}
use postmarketos_x00td_cellu.Rm.Heap.{
  ResourceState, released, request_in_progress, granted, release_in_progress, resource_granted,
  resource_released, Cons, consumer, Heap, Drivers, request_resource, release_resource,
  perf_profile_change, resume_resource, enable_clks_no_block, suspend_resource_no_block,
  send_resume_cmd, send_suspend_cmd, einprogress, is_leaving, is_coming, is_in_progress, add_u32,
  sub_u32, call, put, cons_at, cons_state,
}

abbrev pub plus_bw : Cons → ℕ → Cons
plus_bw c bw = record c {
  resource = record c.resource { needed_bw = add_u32 c.resource.needed_bw bw };
}

abbrev pub minus_bw : Cons → ℕ → Cons
minus_bw c bw = record c {
  resource = record c.resource { needed_bw = sub_u32 c.resource.needed_bw bw };
}

unfoldable pub plus_usage : Bool → Cons → Cons
unfolding incr
plus_usage inc c = if inc then record c { usage_count = incr c.usage_count } else c

unfoldable pub minus_usage : Bool → Cons → Cons
unfolding decr
minus_usage dec c = if dec then record c { usage_count = decr c.usage_count } else c

module _ (d : Drivers) where
  -- -EINPROGRESS counts as 0, so that the result is 0 or an error of the driver.
  unfoldable pub release_work : ℕ → ResourceState → Bool → Heap → Option (ℤ × Heap)
  unfolding consumer_handle_cb
  release_work n prev_state notify_completion h = do
    let driver_result = d.release_answer h.calls n
    let h1 = call (release_resource n) h
    c ← cons_at h1 n
    if not (is_in_progress driver_result) && not (is_zero driver_result)
        then some (driver_result, put n (consumer (cons_state c prev_state)) h1)
        else do
          h2 ←
              if notify_completion
              then consumer_handle_cb (some n) resource_released h1
              else some (put n (consumer (cons_state c released)) h1)
          c2 ← cons_at h2 n
          some (
            pos 0,
            call (perf_profile_change c2.resource.name)
                (put n (consumer (record c2 { completed = true })) h2),
          )

  unfoldable pub request_work : ℕ → ResourceState → ℕ → Bool → Bool → Heap → Option (ℤ × Heap)
  unfolding consumer_handle_cb minus_usage
  request_work n prev_state prod_needed_bw notify_completion dec_client_on_err h = do
    let driver_result = d.request_answer h.calls n
    let h1 = call (request_resource n) h
    c ← cons_at h1 n
    let undone = minus_usage dec_client_on_err (minus_bw (cons_state c prev_state) prod_needed_bw)
    if is_zero driver_result
        then (do
          h2 ←
              if notify_completion
              then consumer_handle_cb (some n) resource_granted h1
              else some (
                  call (resume_resource c.resource.name) (
                    call (perf_profile_change c.resource.name)
                      (put n (consumer (cons_state c granted)) h1)))
          some (driver_result, h2))
        else if not (is_in_progress driver_result)
        then some (driver_result, put n (consumer undone) h1)
        else some (driver_result, h1)

  -- The first case of the switch, for a consumer that is released or about to be.
  unfoldable pub start_request : ℕ → Cons → ResourceState → ℕ → Bool → Heap → Option (ℤ × Heap)
  unfolding request_work
  start_request n c prev_state bw inc h =
      let h1 =
        put n (consumer (record (cons_state c request_in_progress) { completed = false })) h in
      let asleep = is_leaving prev_state in
      let h2 = if asleep then h1 else call (enable_clks_no_block n) h1 in
      if asleep || not (is_zero (d.enable_clks_answer h1.calls n))
      then some (einprogress, call (send_resume_cmd c.resource.name prev_state bw inc) h2)
      else request_work n prev_state bw false inc h2

  unfoldable pub request_turn :
      ℕ → Cons → ResourceState → ℕ → Bool → Bool → Heap → Option (ℤ × Heap)
  unfolding start_request request_work
  request_turn n c released bw inc wake h = start_request n c released bw inc h
  request_turn n c release_in_progress bw inc wake h =
      start_request n c release_in_progress bw inc h
  request_turn n c granted bw inc wake h =
      if wake
      then request_work n granted bw false inc h
      else some (pos 0, call (perf_profile_change c.resource.name) h)
  request_turn n c request_in_progress bw inc wake h = some (einprogress, h)

  -- The default case of the switch has no state left.
  unfoldable pub consumer_request : ℕ → ℕ → Bool → Bool → Heap → Option (ℤ × Heap)
  unfolding request_turn plus_usage
  consumer_request n prod_needed_bw inc_usage_count wake_client h = do
    c ← cons_at h n
    let c1 = plus_bw c prod_needed_bw
    (result, h2) ←
        request_turn n c1 c.resource.state prod_needed_bw inc_usage_count wake_client
          (put n (consumer c1) h)
    c2 ← cons_at h2 n
    some (result, put n (consumer (plus_usage inc_usage_count c2)) h2)

  -- The user count has come down to 0.
  unfoldable pub start_release : ℕ → Cons → ResourceState → ℕ → Heap → Option (ℤ × Heap)
  unfolding release_work
  start_release n c save_state bw h =
      let h1 = put n (consumer (cons_state c release_in_progress)) h in
      let requested = is_coming save_state in
      let h2 = if requested then h1 else call (suspend_resource_no_block n) h1 in
      if requested || not (is_zero (d.suspend_answer h1.calls n))
      then some (einprogress, call (send_suspend_cmd c.resource.name save_state bw) h2)
      else release_work n save_state false h2

  unfoldable pub release_turn : ℕ → Cons → ResourceState → ℕ → Bool → Heap → Option (ℤ × Heap)
  unfolding start_release positive minus_usage
  release_turn n c released bw dec h = some (pos 0, h)
  release_turn n c granted bw dec h =
      let c1 = minus_usage (dec && positive c.usage_count) c in
      if is_zero c1.usage_count
      then start_release n c1 granted bw h
      else some (pos 0, call (perf_profile_change c.resource.name) (put n (consumer c1) h))
  release_turn n c request_in_progress bw dec h =
      let c1 = minus_usage (dec && positive c.usage_count) c in
      if is_zero c1.usage_count
      then start_release n c1 request_in_progress bw h
      else some (pos 0, put n (consumer c1) h)
  release_turn n c release_in_progress bw dec h =
      some (einprogress, put n (consumer (minus_usage (dec && positive c.usage_count) c)) h)

  unfoldable pub consumer_release : ℕ → ℕ → Bool → Heap → Option (ℤ × Heap)
  unfolding release_turn
  consumer_release n prod_needed_bw dec_usage_count h = do
    c ← cons_at h n
    let c1 = minus_bw c prod_needed_bw
    release_turn n c1 c.resource.state prod_needed_bw dec_usage_count (put n (consumer c1) h)
