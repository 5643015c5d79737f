-- ===== src/Rm/Answered.antt =====
-- A producer that waits for consumers, and their callbacks one after the other.
use postmarketos_x00td_cellu.Common.{
  ℕ, suc, ◌-◌, ◌<◌, ◌≤◌, ◌≡◌, ◌≢◌, refl, sym, ap, ◌∙◌, ◌⊎◌, inl, inr, false, subst, Option, none,
  some, List, [], ◌∷◌, ◌==◌, arith, length,
}
use postmarketos_x00td_cellu.Common.Fault.{◌>>=◌}
use postmarketos_x00td_cellu.Common.Int.{pos}
use postmarketos_x00td_cellu.Rm.PeersList.{PeersList, get_resource, get_size}
use postmarketos_x00td_cellu.Rm.Callbacks.{consumer_handle_cb}
use postmarketos_x00td_cellu.Rm.Peering.{producer-consumer}
use postmarketos_x00td_cellu.Rm.RequestLoop.{pending_of}
use postmarketos_x00td_cellu.Rm.Outcome.{Returns, Returns-map, Returns-then}
use postmarketos_x00td_cellu.Rm.CallbackMap.{
  told, count_down, ProducerAt, told-consumer, free_entry, names,
}
use postmarketos_x00td_cellu.Rm.CallbackLoop.{
  CalledBack, consumer_handle_cb-CalledBack, expects_grant, Expects,
}
use postmarketos_x00td_cellu.Rm.Heap.{
  request_in_progress, granted, RmEvent, resource_granted, Cons, Prod, Object, producer, consumer,
  prod_state, Heap,
}

-- The callbacks that tell that the requests of `ms` are granted, in this order.
unfoldable pub callbacks : List ℕ → Heap → Option Heap
unfolding consumer_handle_cb
callbacks [] h = some h
callbacks (m ∷ ms) h = do h1 ← consumer_handle_cb (some m) resource_granted h; callbacks ms h1

abbrev pub Each : (ℕ → Type 0) → List ℕ → Type 0
Each P [] = Unit
Each P (x ∷ xs) = P x × Each P xs

abbrev pub Distinct : List ℕ → Type 0
Distinct [] = Unit
Distinct (x ∷ xs) = Each (λ y. x ≢ y) xs × Distinct xs

-- A consumer whose request is in progress, in whose list the producer `n` is.
pub record Waiter (n : ℕ) (g : ℕ → Option Object) (m : ℕ) : Type 0 where
  pub cons : Cons
  pub there : g m ≡ some (consumer cons)
  pub coming : cons.resource.state ≡ request_in_progress
  pub list : PeersList
  pub listed : cons.resource.peers_list ≡ some list
  pub within : n < get_size list
  pub naming : get_resource (pos n) list ≡ some (some n)
  pub entries : (j : ℕ) → j < get_size list → ProducerAt g list j

told-producer :
    (event : RmEvent) (x : Option (Option ℕ)) (p : Prod)
    → (q : Prod) × (told event x (some (producer p)) ≡ some (producer q))
unfolding told
told-producer event none p = (p, refl)
told-producer event (some none) p = (p, refl)
told-producer event (some (some m)) p = (count_down event p.resource.state p, refl)

-- Through the callback of another consumer.
module _ (event : RmEvent) (m : ℕ) (c : Cons) (l : PeersList) (h h' : Heap)
    (e : h.object m ≡ some (consumer c)) (back : CalledBack event m c l h h') where
  consumer_stays :
      (j : ℕ) (b : Cons) → m ≢ j → h.object j ≡ some (consumer b) → h'.object j ≡ some (consumer b)
  consumer_stays j b o f = elim (below j (get_size l)) [
    | inl a ↦
        back.peers j o a
        ∙ ap (told event (get_resource (pos j) l)) f
        ∙ told-consumer event (get_resource (pos j) l) b
    | inr a ↦ back.others j o a ∙ f
  ]
    where
      below : (m k : ℕ) → (m < k) ⊎ (k ≤ m)
      below m k = ground arith

  producer_stays : (l' : PeersList) (j : ℕ) → ProducerAt h.object l' j → ProducerAt h'.object l' j
  producer_stays l' j (free_entry v) = free_entry v
  producer_stays l' j (names v p f) =
      let o : m ≢ j = λ q. producer-consumer h.object j m p c f e (sym q) in
      elim (below j (get_size l)) [
        | inl a ↦
            let (q, x) = told-producer event (get_resource (pos j) l) p in
            names v q (back.peers j o a ∙ ap (told event (get_resource (pos j) l)) f ∙ x)
        | inr a ↦ names v p (back.others j o a ∙ f)
      ]
    where
      below : (m k : ℕ) → (m < k) ⊎ (k ≤ m)
      below m k = ground arith

  waiters_stay :
      (n : ℕ) (ms : List ℕ)
      → Each (λ k. m ≢ k) ms
      → Each (Waiter n h.object) ms
      → Each (Waiter n h'.object) ms
  waiters_stay n [] os ws = tt
  waiters_stay n (k ∷ ms) (o, os) (w, ws) = (
    record {
      cons = w.cons;
      there = consumer_stays k w.cons o w.there;
      coming = w.coming;
      list = w.list;
      listed = w.listed;
      within = w.within;
      naming = w.naming;
      entries = λ j a. producer_stays w.list j (w.entries j a);
    },
    waiters_stay n ms os ws,
  )

last-count_down :
    (p : Prod)
    → p.pending_request ≡ 1
    → count_down resource_granted request_in_progress p ≡ prod_state (pending_of p 0) granted
unfolding count_down
last-count_down p e = rw e refl

more-count_down :
    (p : Prod) (t : ℕ)
    → p.pending_request ≡ suc (suc t)
    → count_down resource_granted request_in_progress p ≡ pending_of p (suc t)
unfolding count_down
more-count_down p t e =
    let a : (suc (suc t) == 0) ≡ false = ground arith in
    let b : (suc (suc t) == 1) ≡ false = ground arith in
    let c : suc (suc t) - 1 ≡ suc t = omega arith in rw (e, a, b, c) refl

module _ (n : ℕ) where
  first_callback :
      (m : ℕ) (ms : List ℕ) (p : Prod) (h : Heap)
      → h.object n ≡ some (producer p)
      → p.resource.state ≡ request_in_progress
      → Each (λ y. m ≢ y) ms
      → Each (Waiter n h.object) (m ∷ ms)
      → Returns (consumer_handle_cb (some m) resource_granted h) λ h1.
        (h1.object n ≡ some (producer (count_down resource_granted request_in_progress p)))
        × Each (Waiter n h1.object) ms
  unfolding told
  first_callback m ms p h e s o (w, ws) =
      let call : Returns (consumer_handle_cb (some m) resource_granted h)
          (CalledBack resource_granted m w.cons w.list h) =
        consumer_handle_cb-CalledBack m w.cons w.list w.listed h w.there w.entries resource_granted
          (subst (Expects resource_granted) (sym w.coming) expects_grant) in
      Returns-map (consumer_handle_cb (some m) resource_granted h) _ call λ h1 back. (
        back.peers n (λ q. producer-consumer h.object n m p w.cons e w.there (sym q)) w.within
            ∙ rw (w.naming, e) (ap (λ s. some (producer (count_down resource_granted s p))) s),
        waiters_stay resource_granted m w.cons w.list h h1 w.there back n ms o ws,
      )

  -- A producer that waits for as many consumers as `ms` has, each of which has the producer in its list
  -- and names producers only there, is granted, with nothing pending, once all of them have called
  -- back, in any order.
  pub callbacks-granted :
      (ms : List ℕ) (p : Prod) (h : Heap)
      → h.object n ≡ some (producer p)
      → p.resource.state ≡ request_in_progress
      → p.pending_request ≡ length ms
      → 0 < length ms
      → Distinct ms
      → Each (Waiter n h.object) ms
      → Returns
          (callbacks ms h)
          λ h'. h'.object n ≡ some (producer (prod_state (pending_of p 0) granted))
  unfolding callbacks
  callbacks-granted [] p h e s c some_left os ws = absurd (omega arith)
  callbacks-granted (m ∷ []) p h e s c some_left (o, os) ws =
      Returns-then (consumer_handle_cb (some m) resource_granted h) (callbacks []) _
        (first_callback m [] p h e s o ws)
        λ h1 (e1, ws1). e1 ∙ ap (λ q. some (producer q)) (last-count_down p c)
  callbacks-granted (m ∷ k ∷ ms) p h e s c some_left (o, os) ws =
      Returns-then (consumer_handle_cb (some m) resource_granted h) (callbacks (k ∷ ms)) _
        (first_callback m (k ∷ ms) p h e s o ws)
        λ h1 (e1, ws1).
          callbacks-granted (k ∷ ms) (pending_of p (suc (length ms))) h1
            (e1 ∙ ap (λ q. some (producer q)) (more-count_down p (length ms) c)) s refl
            (omega arith) os ws1
