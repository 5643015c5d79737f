-- ===== src/Examples/Resources.antt =====
-- A producer (name 0) with two consumers (1 and 3), and the theorems on resources applied to them.
use postmarketos_x00td_cellu.Common.{
  ℕ, zero, suc, ◌<◌, ◌≡◌, refl, true, false, Option, none, some, [], ◌∷◌, arith,
}
use postmarketos_x00td_cellu.Common.Fault.{◌>>=◌}
use postmarketos_x00td_cellu.Common.Int.{ℤ, pos, negsuc}
use postmarketos_x00td_cellu.Rm.PeersList.{Peer, PeersList, no_peer, get_resource, get_size}
use postmarketos_x00td_cellu.Rm.Producer.{producer_request, producer_release}
use postmarketos_x00td_cellu.Rm.Consumer.{consumer_request, consumer_release, request_work}
use postmarketos_x00td_cellu.Rm.Callbacks.{consumer_handle_cb}
use postmarketos_x00td_cellu.Rm.Requested.{Verdict, consumer_request-Ends}
use postmarketos_x00td_cellu.Rm.Released.{Release, held_granted, consumer_release-Ends}
use postmarketos_x00td_cellu.Rm.ReleaseLoop.{AllReleased, AnyList, producer_release-released}
use postmarketos_x00td_cellu.Rm.Answered.{callbacks}
use postmarketos_x00td_cellu.Rm.CallbackLoop.{
  CalledBack, expects_grant, consumer_handle_cb-CalledBack,
}
use postmarketos_x00td_cellu.Rm.Peering.{waiting, PeerAt, vacant, filled}
use postmarketos_x00td_cellu.Rm.Outcome.{Ends, Returns, Moves}
use postmarketos_x00td_cellu.Rm.RequestLoop.{Any, pending_of}
use postmarketos_x00td_cellu.Rm.RequestEnd.{Outcome, off_released, producer_request-Outcome}
use postmarketos_x00td_cellu.Rm.CallbackMap.{ProducerAt, names}
use postmarketos_x00td_cellu.Rm.Liveness.{Lists, producer_request-granted}
use postmarketos_x00td_cellu.Rm.Heap.{
  ResourceState, released, request_in_progress, granted, Resource, Cons, Prod, Object, producer,
  consumer, Heap, Drivers, cons_at, einprogress, prod_state, resource_granted,
}

abbrev peer : ℕ → Peer
peer n = record { resource = some n; userspace_dep = false }

abbrev resource : ℕ → ResourceState → PeersList → Resource
resource n s l = record {
  name = n;
  floor_voltage = 0;
  max_bw = 10;
  needed_bw = 20;
  state = s;
  peers_list = some l;
}

abbrev producer_peers : PeersList
producer_peers = record {
  peers = no_peer ∷ peer 1 ∷ no_peer ∷ peer 3 ∷ [];
  max_peers = 4;
  peers_count = pos 2;
}

abbrev consumer_peers : PeersList
consumer_peers = record { peers = peer 0 ∷ []; max_peers = 1; peers_count = pos 1 }

abbrev the_producer : ResourceState → Prod
the_producer s = record {
  resource = resource 0 s producer_peers;
  event_listeners = [];
  pending_request = 0;
  pending_release = 0;
}

abbrev a_consumer : ℕ → ResourceState → ℤ → Cons
a_consumer n s users = record {
  resource = resource n s consumer_peers;
  usage_count = users;
  completed = false;
}

abbrev objects : Prod → Cons → Cons → ℕ → Option Object
objects p c e zero = some (producer p)
objects p c e (suc zero) = some (consumer c)
objects p c e (suc (suc (suc zero))) = some (consumer e)
objects p c e _ = none

abbrev idle : Heap
idle = record {
  object =
      objects (the_producer released) (a_consumer 1 released (pos 0))
        (a_consumer 3 released (pos 0));
  calls = [];
}

-- Drivers that answer every request the same way.
abbrev drivers : ℤ → ℤ → Drivers
drivers clks request = record {
  request_answer = λ cs n. request;
  release_answer = λ cs n. pos 0;
  enable_clks_answer = λ cs n. clks;
  suspend_answer = λ cs n. pos 0;
}

abbrev heap_after : Option (ℤ × Heap) → Heap
heap_after none = idle
heap_after (some (r, h)) = h

Lists-0 : Lists 0 idle.object (some consumer_peers)
unfolding get_resource get_size
Lists-0 = record {
  list = consumer_peers;
  listed = refl;
  within = ground arith;
  naming = refl;
  entries = entries;
}
  where
    entries : (j : ℕ) → j < 1 → ProducerAt idle.object consumer_peers j
    entries zero a = names refl (the_producer released) refl
    entries (suc j) a = absurd (omega arith)

peers_0 :
    (j : ℕ)
    → j < get_size producer_peers
    → PeerAt Any (Lists 0 idle.object) idle.object producer_peers j
unfolding get_resource get_size
peers_0 zero a = vacant refl
peers_0 (suc zero) a = filled refl (a_consumer 1 released (pos 0)) refl refl Lists-0
peers_0 (suc (suc zero)) a = vacant refl
peers_0 (suc (suc (suc zero))) a = filled refl (a_consumer 3 released (pos 0)) refl refl Lists-0
peers_0 (suc (suc (suc (suc j)))) a = absurd (omega arith)

producer_request-Outcome_example :
    Ends (producer_request (drivers (pos 0) (negsuc 4)) 0 idle) λ r h'.
      Outcome (Lists 0 idle.object) 0 (the_producer released) producer_peers idle.object r h'.object
producer_request-Outcome_example =
    producer_request-Outcome (drivers (pos 0) (negsuc 4)) 0 (Lists 0 idle.object)
      (the_producer released) producer_peers idle refl off_released refl peers_0

-- The clocks cannot be enabled at once, so that both requests are queued.
abbrev queued : Heap
unfolding producer_request
queued = heap_after (producer_request (drivers einprogress (pos 0)) 0 idle)

is_queued : producer_request (drivers einprogress (pos 0)) 0 idle ≡ some (einprogress, queued)
unfolding producer_request queued get_size get_resource
is_queued = refl

producer_request-granted_example :
    Returns
      (callbacks (waiting queued.object producer_peers (get_size producer_peers) 0) queued)
      λ h2.
        h2.object 0 ≡ some (producer (prod_state (pending_of (the_producer released) 0) granted))
producer_request-granted_example =
    producer_request-granted (drivers einprogress (pos 0)) 0 (the_producer released) producer_peers
      idle refl off_released refl peers_0 queued is_queued

-- One of the two requests is answered.
abbrev waiting_heap : Heap
waiting_heap = record {
  object =
      objects (record (the_producer request_in_progress) { pending_request = 2 })
        (a_consumer 1 request_in_progress (pos 1)) (a_consumer 3 request_in_progress (pos 1));
  calls = [];
}

entries_0 : (j : ℕ) → j < get_size consumer_peers → ProducerAt waiting_heap.object consumer_peers j
unfolding get_resource get_size
entries_0 zero a =
    names refl (record (the_producer request_in_progress) { pending_request = 2 }) refl
entries_0 (suc j) a = absurd (omega arith)

consumer_handle_cb-CalledBack_example :
    Returns (consumer_handle_cb (some 1) resource_granted waiting_heap) (
      CalledBack resource_granted 1
        (a_consumer 1 request_in_progress (pos 1))
        consumer_peers
        waiting_heap)
consumer_handle_cb-CalledBack_example =
    consumer_handle_cb-CalledBack 1 (a_consumer 1 request_in_progress (pos 1)) consumer_peers refl
      waiting_heap refl entries_0 resource_granted expects_grant

consumer_request-Ends_example :
    Ends (consumer_request (drivers (pos 0) (pos 0)) 1 10 true false idle) λ r h'.
      (c' : Cons) × Moves 1 c' idle.object h'.object
      × Verdict (a_consumer 1 released (pos 0)) 10 true r c'
consumer_request-Ends_example =
    consumer_request-Ends (drivers (pos 0) (pos 0)) 1 10 true (a_consumer 1 released (pos 0)) idle
      refl

abbrev all_on : Heap
all_on = record {
  object =
      objects (the_producer granted) (a_consumer 1 granted (pos 1)) (a_consumer 3 granted (pos 2));
  calls = [];
}

consumer_release-Ends_example :
    Ends (consumer_release (drivers (pos 0) (pos 0)) 1 10 true all_on) λ r h'.
      (c' : Cons) × Moves 1 c' all_on.object h'.object
      × Release (a_consumer 1 granted (pos 1)) 10 true r c'
consumer_release-Ends_example =
    consumer_release-Ends (drivers (pos 0) (pos 0)) 1 10 true (a_consumer 1 granted (pos 1)) all_on
      refl

all_on_peers :
    (j : ℕ) → j < get_size producer_peers → PeerAt Any AnyList all_on.object producer_peers j
unfolding get_resource get_size
all_on_peers zero a = vacant refl
all_on_peers (suc zero) a = filled refl (a_consumer 1 granted (pos 1)) refl refl refl
all_on_peers (suc (suc zero)) a = vacant refl
all_on_peers (suc (suc (suc zero))) a = filled refl (a_consumer 3 granted (pos 2)) refl refl refl
all_on_peers (suc (suc (suc (suc j)))) a = absurd (omega arith)

producer_release-released_example :
    Ends
      (producer_release (drivers (pos 0) (pos 0)) 0 all_on)
      (AllReleased (drivers (pos 0) (pos 0)) 0 (the_producer granted) producer_peers all_on)
producer_release-released_example =
    producer_release-released (drivers (pos 0) (pos 0)) 0 (the_producer granted) producer_peers
      all_on refl held_granted refl all_on_peers

-- Two producers wait for the consumer when the queued request fails: one user is left, in RELEASED.
abbrev after_failure : Option (ResourceState × ℤ)
unfolding consumer_request request_work
after_failure = do
  (r1, h1) ← consumer_request (drivers einprogress (negsuc 4)) 1 10 true false idle
  (r2, h2) ← consumer_request (drivers einprogress (negsuc 4)) 1 10 true false h1
  (r3, h3) ← request_work (drivers einprogress (negsuc 4)) 1 released 10 true true h2
  c ← cons_at h3 1
  some (c.resource.state, c.usage_count)

user_is_left : after_failure ≡ some (released, pos 1)
unfolding after_failure
user_is_left = refl
