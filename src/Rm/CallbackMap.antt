-- ===== src/Rm/CallbackMap.antt =====
-- A callback of a consumer, as a change of its producers one by one.
use postmarketos_x00td_cellu.Common.{
  ℕ, zero, suc, ◌-◌, ◌≡◌, ◌≢◌, refl, ◌∙◌, ◌⊎◌, inl, inr, Bool, true, false, Option, none, some,
  List, [], ◌∷◌, ltb, ◌==◌, ==-refl, ==-ne, if◌then◌else◌, arith, Bool-cases,
}
use postmarketos_x00td_cellu.Common.Int.{pos}
use postmarketos_x00td_cellu.Rm.PeersList.{PeersList, get_resource}
use postmarketos_x00td_cellu.Rm.Callbacks.{
  notify_clients, one_granted, one_released, producer_handle,
}
use postmarketos_x00td_cellu.Rm.Heap.{
  ResourceState, released, request_in_progress, granted, release_in_progress, RmEvent,
  resource_granted, resource_released, NotificationInfo, Cons, Prod, Object, producer, consumer,
  Heap, put, update, prod_state, call, perf_profile_change,
}

-- What an event does to a producer: it lowers the count of the pending requests or releases, and the
-- last one ends the request or the release.
unfoldable pub count_down : RmEvent → ResourceState → Prod → Prod
count_down resource_granted request_in_progress p =
    let q = record p { pending_request = p.pending_request - 1 } in
    if p.pending_request == 0 then p else if p.pending_request == 1 then prod_state q granted else q
count_down resource_released release_in_progress p =
    let q = record p { pending_release = p.pending_release - 1 } in
    if p.pending_release == 0
    then p
    else if p.pending_release == 1
    then prod_state q released
    else q
count_down _ _ p = p

-- Of the object at an entry that is filled or not.
unfoldable pub told : RmEvent → Option (Option ℕ) → Option Object → Option Object
unfolding count_down
told event (some (some m)) (some (producer p)) =
    some (producer (count_down event p.resource.state p))
told event _ o = o

pub told-consumer :
    (event : RmEvent) (x : Option (Option ℕ)) (c : Cons)
    → told event x (some (consumer c)) ≡ some (consumer c)
unfolding told
told-consumer event none c = refl
told-consumer event (some none) c = refl
told-consumer event (some (some m)) c = refl

-- An entry of a consumer's list is free, or names the producer of its index.
pub data ProducerAt (g : ℕ → Option Object) (l : PeersList) (j : ℕ) : Type 0 where
  free_entry : get_resource (pos j) l ≡ some none → ProducerAt g l j
  names :
      get_resource (pos j) l ≡ some (some j)
      → (p : Prod) → g j ≡ some (producer p)
      → ProducerAt g l j

pub carry-ProducerAt :
    (g g' : ℕ → Option Object) (l : PeersList) (j : ℕ)
    → g' j ≡ g j
    → ProducerAt g l j
    → ProducerAt g' l j
carry-ProducerAt g g' l j e (free_entry v) = free_entry v
carry-ProducerAt g g' l j e (names v p f) = names v p (e ∙ f)

notify_clients-object :
    (infos : List NotificationInfo) (event : RmEvent) (b : Bool) (h : Heap)
    → (notify_clients infos event b h).object ≡ h.object
unfolding notify_clients
notify_clients-object [] event b h = refl
notify_clients-object (info ∷ infos) event true h = elim (Bool-cases info.is_explicit) [
  | inl x ↦ rw x (notify_clients-object infos event true _)
  | inr x ↦ rw x (notify_clients-object infos event true h)
]
notify_clients-object (info ∷ infos) event false h = notify_clients-object infos event false _

-- What the tests of a count come to, in the code and in `count_down`.
Count-cases :
    (t : ℕ)
    → ((ltb 0 t ≡ false) × ((t == 0) ≡ true))
      ⊎ (((ltb 0 t ≡ true) × ((t - 1 == 0) ≡ true) × ((t == 0) ≡ false) × ((t == 1) ≡ true))
          ⊎ ((ltb 0 t ≡ true) × ((t - 1 == 0) ≡ false) × ((t == 0) ≡ false) × ((t == 1) ≡ false)))
Count-cases zero = inl (refl, refl)
Count-cases (suc zero) = inr (inl (refl, refl, refl, refl))
Count-cases (suc (suc t)) = inr (inr (ground arith))

-- One producer of the loop.
pub record Counted (n : ℕ) (p : Prod) (h h' : ℕ → Option Object) : Type 0 where
  pub there : h' n ≡ some (producer p)
  pub elsewhere : (j : ℕ) → n ≢ j → h' j ≡ h j

put-Counted :
    (n : ℕ) (p : Prod) (h : ℕ → Option Object) → Counted n p h (update h n (some (producer p)))
put-Counted n p h = record { there = rw (==-refl n) refl; elsewhere = λ j o. rw (==-ne n j o) refl }

one_granted-Counted :
    (n : ℕ) (p : Prod) (h : Heap)
    → h.object n ≡ some (producer p)
    → Counted n
        (count_down resource_granted request_in_progress p)
        h.object
        (one_granted n p h).object
unfolding one_granted count_down
one_granted-Counted n p h e = elim (Count-cases p.pending_request) [
  | inl (a, b) ↦ rw (a, b) (record { there = e; elsewhere = λ j o. refl })
  | inr (inl (a, b, c, x)) ↦
      rw (a, b, c, x)
        (rw
          (notify_clients-object p.event_listeners resource_granted false (
            call (perf_profile_change p.resource.name) (
              put n
                (producer
                  (prod_state (record p { pending_request = p.pending_request - 1 }) granted))
                h)))
          (put-Counted n _ h.object))
  | inr (inr (a, b, c, x)) ↦ rw (a, b, c, x) (put-Counted n _ h.object)
]

one_released-Counted :
    (n : ℕ) (p : Prod) (h : Heap)
    → h.object n ≡ some (producer p)
    → Counted n
        (count_down resource_released release_in_progress p)
        h.object
        (one_released n p h).object
unfolding one_released count_down
one_released-Counted n p h e = elim (Count-cases p.pending_release) [
  | inl (a, b) ↦ rw (a, b) (record { there = e; elsewhere = λ j o. refl })
  | inr (inl (a, b, c, x)) ↦
      rw (a, b, c, x)
        (rw
          (notify_clients-object p.event_listeners resource_released false (
            call (perf_profile_change p.resource.name) (
              put n
                (producer
                  (prod_state (record p { pending_release = p.pending_release - 1 }) released))
                h)))
          (put-Counted n _ h.object))
  | inr (inr (a, b, c, x)) ↦ rw (a, b, c, x) (put-Counted n _ h.object)
]

pub producer_handle-Counted :
    (n : ℕ) (p : Prod) (s : ResourceState) (event : RmEvent) (h : Heap)
    → h.object n ≡ some (producer p)
    → Counted n (count_down event s p) h.object (producer_handle n p s event h).object
unfolding producer_handle count_down
producer_handle-Counted n p request_in_progress resource_granted h e = one_granted-Counted n p h e
producer_handle-Counted n p release_in_progress resource_released h e = one_released-Counted n p h e
producer_handle-Counted n p request_in_progress resource_released h e = record {
  there = e;
  elsewhere = λ j o. refl;
}
producer_handle-Counted n p release_in_progress resource_granted h e = record {
  there = e;
  elsewhere = λ j o. refl;
}
producer_handle-Counted n p granted resource_released h e = record {
  there = e;
  elsewhere = λ j o. refl;
}
producer_handle-Counted n p granted resource_granted h e = record {
  there = e;
  elsewhere = λ j o. refl;
}
producer_handle-Counted n p released resource_released h e = record {
  there = e;
  elsewhere = λ j o. refl;
}
producer_handle-Counted n p released resource_granted h e = record {
  there = e;
  elsewhere = λ j o. refl;
}
