-- ===== src/Rm/Callbacks.antt =====
-- ipa_rm_resource.c: the notification of a consumer's new state to its producers, and of a
-- producer's to its clients.
use postmarketos_x00td_cellu.Common.{
  ℕ, zero, suc, ◌+◌, ◌-◌, Bool, true, false, not, ◌&&◌, Option, none, some, List, [], ◌∷◌, ltb,
  ◌==◌, if◌then◌else◌,
}
use postmarketos_x00td_cellu.Common.Fault.{◌>>=◌}
use postmarketos_x00td_cellu.Rm.Heap.{
  ResourceState, released, request_in_progress, granted, release_in_progress, RmEvent,
  resource_granted, resource_released, NotificationInfo, Cons, Prod, producer, consumer, Heap,
  notify_cb, perf_profile_change, resume_resource, call, put, cons_at, prod_at, cons_state,
  prod_state, peer_of, size_of,
}

abbrev pub is_granted_event : RmEvent → Bool
is_granted_event resource_granted = true
is_granted_event resource_released = false

unfoldable pub notify_clients : List NotificationInfo → RmEvent → Bool → Heap → Heap
notify_clients [] event registered_only h = h
notify_clients (info ∷ infos) event registered_only h = notify_clients infos event registered_only (
    if registered_only && not info.is_explicit
    then h
    else call (notify_cb info.reg_params.notify_cb info.reg_params.user_data event) h)

-- The case of the switch for a producer in REQUEST_IN_PROGRESS, and for one in RELEASE_IN_PROGRESS.
unfoldable pub one_granted : ℕ → Prod → Heap → Heap
unfolding notify_clients
one_granted n p h =
    if not (ltb 0 p.pending_request)
    then h
    else let pending = p.pending_request - 1 in
      let q = record p { pending_request = pending } in
      if pending == 0
      then notify_clients p.event_listeners resource_granted false
          (call (perf_profile_change p.resource.name) (put n (producer (prod_state q granted)) h))
      else put n (producer q) h

unfoldable pub one_released : ℕ → Prod → Heap → Heap
unfolding notify_clients
one_released n p h =
    if not (ltb 0 p.pending_release)
    then h
    else let pending = p.pending_release - 1 in
      let q = record p { pending_release = pending } in
      if pending == 0
      then notify_clients p.event_listeners resource_released false
          (call (perf_profile_change p.resource.name) (put n (producer (prod_state q released)) h))
      else put n (producer q) h

unfoldable pub producer_handle : ℕ → Prod → ResourceState → RmEvent → Heap → Heap
unfolding one_granted one_released
producer_handle n p request_in_progress event h =
    if is_granted_event event then one_granted n p h else h
producer_handle n p release_in_progress event h =
    if is_granted_event event then h else one_released n p h
producer_handle n p granted event h = h
producer_handle n p released event h = h

unfoldable pub producer_handle_cb : ℕ → RmEvent → Heap → Option Heap
unfolding producer_handle
producer_handle_cb n event h = do
  p ← prod_at h n
  some (producer_handle n p p.resource.state event h)

unfoldable pub handle_peer : Option ℕ → RmEvent → Heap → Option Heap
unfolding producer_handle_cb
handle_peer none event h = some h
handle_peer (some m) event h = producer_handle_cb m event h

-- `k` rounds of the loop over the peers, from index `i` on.
unfoldable pub handle_peers : ℕ → RmEvent → ℕ → ℕ → Heap → Option Heap
unfolding handle_peer
handle_peers n event zero i h = some h
handle_peers n event (suc k) i h = do
  c ← cons_at h n
  m ← peer_of c.resource i
  h' ← handle_peer m event h
  handle_peers n event k (i + 1) h'

-- The switch: whether the producers are told, and the state then.
unfoldable pub consumer_turn : ℕ → Cons → ResourceState → RmEvent → Heap → Bool × Heap
consumer_turn n c request_in_progress event h =
    if is_granted_event event
    then (
      true,
      put n (consumer (record (cons_state c granted) { completed = true }))
          (call (resume_resource c.resource.name) (call (perf_profile_change c.resource.name) h)),
    )
    else (false, h)
consumer_turn n c release_in_progress event h =
    if is_granted_event event
    then (false, h)
    else (true, put n (consumer (cons_state c released)) h)
consumer_turn n c granted event h = (false, h)
consumer_turn n c released event h = (false, h)

-- After the switch.
unfoldable pub tell_producers : ℕ → RmEvent → Cons → Bool → Heap → Option Heap
unfolding handle_peers
tell_producers n event c false h = some h
tell_producers n event c true h = do size ← size_of c.resource; handle_peers n event size 0 h

-- A consumer of NULL changes nothing.
unfoldable pub consumer_handle_cb : Option ℕ → RmEvent → Heap → Option Heap
unfolding consumer_turn tell_producers
consumer_handle_cb none event h = some h
consumer_handle_cb (some n) event h = do
  c ← cons_at h n
  let (told, h') = consumer_turn n c c.resource.state event h
  tell_producers n event c told h'
