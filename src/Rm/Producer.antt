-- ===== src/Rm/Producer.antt =====
-- ipa_rm_resource.c: the requests and releases of a producer, which go to all its consumers, and the
-- registration of its clients.
use postmarketos_x00td_cellu.Common.{
  ℕ, zero, suc, ◌+◌, ◌-◌, Bool, true, false, not, Option, none, some, List, [], ◌∷◌, ◌==◌,
  if◌then◌else◌,
}
use postmarketos_x00td_cellu.Common.Fault.{◌>>=◌}
use postmarketos_x00td_cellu.Common.Int.{ℤ, pos, is_zero}
use postmarketos_x00td_cellu.Rm.Consumer.{consumer_request, consumer_release}
use postmarketos_x00td_cellu.Rm.Heap.{
  ResourceState, released, request_in_progress, granted, release_in_progress, resource_granted,
  resource_released, RegisterParams, NotificationInfo, Prod, producer, Heap, Drivers,
  perf_profile_change, send_notify_prod, einprogress, eperm, einval, enomem, is_in_progress, call,
  put, prod_at, prod_state, peer_of, size_of,
}

-- A loop over the consumers goes on with a result so far, or ends on an error of one of them.
pub data Loop : Type 0 where
  done : ℤ → Loop
  bail : ℤ → Loop

abbrev pub add_pending : Prod → Prod
add_pending p = record p { pending_request = p.pending_request + 1 }

-- Follows an `add_pending`.
abbrev pub drop_pending : Prod → Prod
drop_pending p = record p { pending_request = p.pending_request - 1 }

abbrev pub put_prod : ℕ → Prod → Heap → Heap
put_prod n p h = put n (producer p) h

module _ (d : Drivers) where
  -- The body of the loop for a consumer `m`: its result, and whether the loop ends.
  unfoldable pub request_one : ℕ → ℕ → ℤ → Heap → Option (Loop × Heap)
  unfolding consumer_request
  request_one n m result h = do
    p ← prod_at h n
    (consumer_result, h1) ←
        consumer_request d m p.resource.max_bw true false (put_prod n (add_pending p) h)
    if is_in_progress consumer_result then some (done einprogress, h1) else do
      p1 ← prod_at h1 n
      let h2 = put_prod n (drop_pending p1) h1
      some (if is_zero consumer_result then done result else bail consumer_result, h2)

  unfoldable pub request_peer : ℕ → Option ℕ → ℤ → Heap → Option (Loop × Heap)
  unfolding request_one
  request_peer n none result h = some (done result, h)
  request_peer n (some m) result h = request_one n m result h

  -- `k` rounds from index `i` on.
  unfoldable pub request_peers : ℕ → ℤ → ℕ → ℕ → Heap → Option (Loop × Heap)
  unfolding request_peer
  request_peers n result zero i h = some (done result, h)
  request_peers n result (suc k) i h = do
    p ← prod_at h n
    m ← peer_of p.resource i
    (l, h1) ← request_peer n m result h
    elim l [
      | bail error ↦ some (bail error, h1)
      | done result1 ↦ request_peers n result1 k (i + 1) h1
    ]

  -- After the loop.
  unfoldable pub request_end : ℕ → Loop → Heap → Option (ℤ × Heap)
  request_end n (bail error) h = some (error, h)
  request_end n (done result) h = do
    p ← prod_at h n
    let told =
        call (send_notify_prod p.resource.name resource_granted true)
          (call (perf_profile_change p.resource.name) (put_prod n (prod_state p granted) h))
    if p.pending_request == 0 then some (pos 0, told) else some (result, h)

  unfoldable pub start_producer : ℕ → Prod → Heap → Option (ℤ × Heap)
  unfolding request_peers request_end
  start_producer n p h = do
    let q = record (prod_state p request_in_progress) { pending_request = 0 }
    size ← size_of p.resource
    (l, h1) ← request_peers n (pos 0) size 0 (put_prod n q h)
    request_end n l h1

  -- The switch; its default case has no state left.
  unfoldable pub request_switch : ResourceState → ℕ → Prod → Heap → Option (ℤ × Heap)
  unfolding start_producer
  request_switch released n p h = start_producer n p h
  request_switch release_in_progress n p h = start_producer n p h
  request_switch granted n p h = some (pos 0, h)
  request_switch request_in_progress n p h = some (einprogress, h)

  unfoldable pub producer_request : ℕ → Heap → Option (ℤ × Heap)
  unfolding request_switch
  producer_request n h = do p ← prod_at h n; request_switch p.resource.state n p h

  -- A consumer's result is not looked at, and the count of pending releases is as before.
  unfoldable pub release_one : ℕ → ℕ → Heap → Option Heap
  unfolding consumer_release
  release_one n m h = do
    p ← prod_at h n
    let h1 = put_prod n (record p { pending_release = p.pending_release + 1 }) h
    (consumer_result, h2) ← consumer_release d m p.resource.max_bw true h1
    p2 ← prod_at h2 n
    some (put_prod n (record p2 { pending_release = p2.pending_release - 1 }) h2)

  unfoldable pub release_peer : ℕ → Option ℕ → Heap → Option Heap
  unfolding release_one
  release_peer n none h = some h
  release_peer n (some m) h = release_one n m h

  unfoldable pub release_peers : ℕ → ℕ → ℕ → Heap → Option Heap
  unfolding release_peer
  release_peers n zero i h = some h
  release_peers n (suc k) i h = do
    p ← prod_at h n
    m ← peer_of p.resource i
    h1 ← release_peer n m h
    release_peers n k (i + 1) h1

  unfoldable pub stop_producer : ℕ → Prod → Heap → Option (ℤ × Heap)
  unfolding release_peers
  stop_producer n p h = do
    let q = record (prod_state p release_in_progress) { pending_release = 0 }
    size ← size_of p.resource
    h1 ← release_peers n size 0 (put_prod n q h)
    p1 ← prod_at h1 n
    let told =
        call (send_notify_prod p1.resource.name resource_released true)
          (call (perf_profile_change p1.resource.name) (put_prod n (prod_state p1 released) h1))
    if p1.pending_release == 0 then some (pos 0, told) else some (pos 0, h1)

  unfoldable pub release_switch : ResourceState → ℕ → Prod → Heap → Option (ℤ × Heap)
  unfolding stop_producer
  release_switch released n p h = some (pos 0, h)
  release_switch granted n p h = stop_producer n p h
  release_switch request_in_progress n p h = stop_producer n p h
  release_switch release_in_progress n p h = some (einprogress, h)

  unfoldable pub producer_release : ℕ → Heap → Option (ℤ × Heap)
  unfolding release_switch
  producer_release n h = do p ← prod_at h n; release_switch p.resource.state n p h

-- Whether a client with this callback is registered.
unfoldable pub is_listening : ℕ → List NotificationInfo → Bool
is_listening cb [] = false
is_listening cb (info ∷ infos) =
    if info.reg_params.notify_cb == cb then true else is_listening cb infos

-- `alloc_ok` tells whether kzalloc succeeds.
unfoldable pub register_in :
    List NotificationInfo → RegisterParams → Bool → Bool → ℤ × List NotificationInfo
unfolding is_listening
register_in infos params is_explicit alloc_ok =
    if is_listening params.notify_cb infos
    then (eperm, infos)
    else if not alloc_ok
    then (enomem, infos)
    else (pos 0, record { reg_params = params; is_explicit = is_explicit } ∷ infos)

unfoldable pub producer_register :
    Option ℕ → Option RegisterParams → Bool → Bool → Heap → Option (ℤ × Heap)
unfolding register_in
producer_register (some n) (some params) is_explicit alloc_ok h = do
  p ← prod_at h n
  let (result, infos) = register_in p.event_listeners params is_explicit alloc_ok
  some (result, put_prod n (record p { event_listeners = infos }) h)
producer_register _ _ is_explicit alloc_ok h = some (eperm, h)

unfoldable pub deregister_in : ℕ → List NotificationInfo → ℤ × List NotificationInfo
deregister_in cb [] = (einval, [])
deregister_in cb (info ∷ infos) =
    if info.reg_params.notify_cb == cb
    then (pos 0, infos)
    else let (result, rest) = deregister_in cb infos in (result, info ∷ rest)

unfoldable pub producer_deregister : Option ℕ → Option RegisterParams → Heap → Option (ℤ × Heap)
unfolding deregister_in
producer_deregister (some n) (some params) h = do
  p ← prod_at h n
  let (result, infos) = deregister_in params.notify_cb p.event_listeners
  some (result, put_prod n (record p { event_listeners = infos }) h)
producer_deregister _ _ h = some (einval, h)
