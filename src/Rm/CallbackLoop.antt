-- ===== src/Rm/CallbackLoop.antt =====
-- A callback of a consumer that is being requested or released, as a whole.
use postmarketos_x00td_cellu.Common.{
  ℕ, zero, suc, ◌+◌, ◌<◌, ◌≤◌, ◌≡◌, ◌≢◌, refl, sym, ap, ◌∙◌, ◌⊎◌, inl, inr, true, none, some,
  ==-refl, ==-ne, arith,
}
use postmarketos_x00td_cellu.Common.Int.{pos}
use postmarketos_x00td_cellu.Rm.PeersList.{PeersList, get_resource, get_size}
use postmarketos_x00td_cellu.Rm.Callbacks.{
  producer_handle, producer_handle_cb, handle_peer, handle_peers, consumer_turn, tell_producers,
  consumer_handle_cb,
}
use postmarketos_x00td_cellu.Rm.Peering.{producer-consumer, first_or_later}
use postmarketos_x00td_cellu.Rm.Outcome.{Returns, Returns-map}
use postmarketos_x00td_cellu.Rm.CallbackMap.{
  told, ProducerAt, told-consumer, carry-ProducerAt, free_entry, names, producer_handle-Counted,
}
use postmarketos_x00td_cellu.Rm.Heap.{
  ResourceState, released, request_in_progress, granted, release_in_progress, RmEvent,
  resource_granted, resource_released, Cons, consumer, Heap, put, cons_state, peer_of, size_of,
  call, perf_profile_change, resume_resource,
}

-- The heap `h'` is `h` with the producers at the indices from `i` on, `k` of them, told.
pub record Told (event : RmEvent) (l : PeersList) (k i : ℕ) (h h' : Heap) : Type 0 where
  pub inside :
      (j : ℕ) → i ≤ j → j < i + k → h'.object j ≡ told event (get_resource (pos j) l) (h.object j)
  pub outside : (j : ℕ) → (j < i) ⊎ (i + k ≤ j) → h'.object j ≡ h.object j

module _ (m : ℕ) (c : Cons) (l : PeersList) (pl : c.resource.peers_list ≡ some l)
    (event : RmEvent) where
  extend :
      (k i : ℕ) (h h1 h' : Heap)
      → h1.object i ≡ told event (get_resource (pos i) l) (h.object i)
      → ((j : ℕ) → i ≢ j → h1.object j ≡ h.object j)
      → Told event l k (i + 1) h1 h'
      → Told event l (suc k) i h h'
  extend k i h h1 h' e s t = record {
    inside =
        first_or_later (λ j. h'.object j ≡ told event (get_resource (pos j) l) (h.object j)) i k
          (t.outside i (inl (omega arith)) ∙ e)
          (λ j a b. t.inside j a b ∙ ap (told event (get_resource (pos j) l)) (s j (ground arith)));
    outside = λ j o. t.outside j (ground arith) ∙ s j (ground arith);
  }

  handle_peers-Told :
      (k i : ℕ) (h : Heap)
      → h.object m ≡ some (consumer c)
      → ((j : ℕ) → i ≤ j → j < i + k → ProducerAt h.object l j)
      → Returns (handle_peers m event k i h) (Told event l k i h)
  unfolding handle_peers handle_peer producer_handle_cb told
  handle_peers-Told zero i h e at = record {
    inside = λ j a b. absurd (omega arith);
    outside = λ j o. refl;
  }
  handle_peers-Told (suc k) i h e at = elim (at i (omega arith) (omega arith)) [
    | free_entry v ↦
        let none_there : peer_of c.resource i ≡ some none = rw pl v in
        rw (e, none_there)
          (Returns-map (handle_peers m event k (i + 1) h) _
            (handle_peers-Told k (i + 1) h e λ j a b. at j (omega arith) (omega arith))
            λ h' t. extend k i h h h' (rw v refl) (λ j o. refl) t)
    | names v p f ↦
        let some_there : peer_of c.resource i ≡ some (some i) = rw pl v in
        let h1 = producer_handle i p p.resource.state event h in
        let counted = producer_handle-Counted i p p.resource.state event h f in
        let e1 : h1.object m ≡ some (consumer c) =
          counted.elsewhere m (producer-consumer h.object i m p c f e) ∙ e in
        rw (e, some_there, f)
          (Returns-map (handle_peers m event k (i + 1) h1) _
            (handle_peers-Told k (i + 1) h1 e1 λ j a b.
              carry-ProducerAt h.object h1.object l j (counted.elsewhere j (ground arith))
                (at j (omega arith) (omega arith)))
            λ h' t. extend k i h h1 h' (rw (v, f) counted.there) counted.elsewhere t)
  ]

-- The event that a consumer in a state waits for, and the consumer after it.
pub data Expects : RmEvent → ResourceState → Type 0 where
  expects_grant : Expects resource_granted request_in_progress
  expects_release : Expects resource_released release_in_progress

abbrev pub arrived : RmEvent → Cons → Cons
arrived resource_granted c = record (cons_state c granted) { completed = true }
arrived resource_released c = cons_state c released

-- What a callback comes to: the consumer has arrived, each entry of its list is told of the event, and
-- no other resource is changed.
pub record CalledBack (event : RmEvent) (m : ℕ) (c : Cons) (l : PeersList) (h h' : Heap)
    : Type 0 where
  pub at_consumer : h'.object m ≡ some (consumer (arrived event c))
  pub peers :
      (j : ℕ)
      → m ≢ j
      → j < get_size l
      → h'.object j ≡ told event (get_resource (pos j) l) (h.object j)
  pub others : (j : ℕ) → m ≢ j → get_size l ≤ j → h'.object j ≡ h.object j

module _ (m : ℕ) (c : Cons) (l : PeersList) (pl : c.resource.peers_list ≡ some l) (h : Heap)
    (e : h.object m ≡ some (consumer c))
    (at : (j : ℕ) → j < get_size l → ProducerAt h.object l j) where
  after_turn :
      (event : RmEvent) (h1 : Heap)
      → h1.object ≡ (put m (consumer (arrived event c)) h).object
      → Returns (handle_peers m event (get_size l) 0 h1) (CalledBack event m c l h)
  after_turn event h1 s =
      let e1 : h1.object m ≡ some (consumer (arrived event c)) = rw s (rw (==-refl m) refl) in
      let same : (j : ℕ) → m ≢ j → h1.object j ≡ h.object j = λ j o. rw s (rw (==-ne m j o) refl) in
      Returns-map (handle_peers m event (get_size l) 0 h1) _
        (handle_peers-Told m (arrived event c) l (arrived_list event ∙ pl) event (get_size l) 0 h1
          e1 λ j a b. apart_or_not j (at j (omega arith)) same)
        λ h' t. record {
          at_consumer = elim (below m (get_size l)) [
            | inl a ↦
                t.inside m (omega arith) (omega arith)
                ∙ ap (told event (get_resource (pos m) l)) e1
                ∙ told-consumer event (get_resource (pos m) l) (arrived event c)
            | inr a ↦ t.outside m (inr (omega arith)) ∙ e1
          ];
          peers = λ j o a.
              t.inside j (omega arith) (omega arith)
              ∙ ap (told event (get_resource (pos j) l)) (same j o);
          others = λ j o a. t.outside j (inr (omega arith)) ∙ same j o;
        }
    where
      arrived_list :
          (event : RmEvent) → (arrived event c).resource.peers_list ≡ c.resource.peers_list
      arrived_list resource_granted = refl
      arrived_list resource_released = refl

      below : (m k : ℕ) → (m < k) ⊎ (k ≤ m)
      below m k = ground arith

      apart_or_not :
          (j : ℕ)
          → ProducerAt h.object l j
          → ((j : ℕ) → m ≢ j → h1.object j ≡ h.object j)
          → ProducerAt h1.object l j
      apart_or_not j (free_entry v) same = free_entry v
      apart_or_not j (names v p f) same =
          names v p (same j (λ q. producer-consumer h.object j m p c f e (sym q)) ∙ f)

  by_turn :
      (event : RmEvent) (s : ResourceState)
      → Expects event s
      → Returns
          (let (said, h1) = consumer_turn m c s event h in tell_producers m event c said h1)
          (CalledBack event m c l h)
  unfolding consumer_turn tell_producers
  by_turn _ _ expects_grant =
      let size : size_of c.resource ≡ some (get_size l) = rw pl refl in
      rw size (
        after_turn resource_granted
          (put m (consumer (arrived resource_granted c))
            (call (resume_resource c.resource.name) (call (perf_profile_change c.resource.name) h)))
          refl)
  by_turn _ _ expects_release =
      let size : size_of c.resource ≡ some (get_size l) = rw pl refl in
      rw size (after_turn resource_released (put m (consumer (arrived resource_released c)) h) refl)

  -- An event that the consumer waits for moves the consumer on and reaches each producer in its list
  -- exactly once, where each entry of the list is free or names the producer of its index. It returns,
  -- and every other resource is as before.
  pub consumer_handle_cb-CalledBack :
      (event : RmEvent)
      → Expects event c.resource.state
      → Returns (consumer_handle_cb (some m) event h) (CalledBack event m c l h)
  unfolding consumer_handle_cb
  consumer_handle_cb-CalledBack event x = rw e (by_turn event c.resource.state x)
