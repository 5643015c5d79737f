-- ===== src/Rm/RequestLoop.antt =====
-- The loop of a producer's request.
use postmarketos_x00td_cellu.Common.{
  ℕ, zero, suc, ◌+◌, ◌<◌, ◌≤◌, ◌≡◌, ◌≢◌, refl, sym, ap, ◌∙◌, subst, ◌⊎◌, inl, inr, Bool, true,
  false, Option, none, some, arith, if◌then◌else◌, List, [], ◌∷◌, length,
}
use postmarketos_x00td_cellu.Common.Int.{ℤ, pos}
use postmarketos_x00td_cellu.Rm.PeersList.{PeersList, get_resource}
use postmarketos_x00td_cellu.Rm.Outcome.{Ends, Ends-then, Ends-map, IsError}
use postmarketos_x00td_cellu.Rm.Peering.{
  PeerAt, vacant, filled, IsAnswered, answered_granted, answered_waiting, waits_in, waiting, carry,
  waiting-head, first_or_later, producer-consumer,
}
use postmarketos_x00td_cellu.Rm.RequestRound.{
  round_grants, round_waits, round_refuses, request_one-Ends,
}
use postmarketos_x00td_cellu.Rm.Producer.{
  Loop, done, bail, request_one, request_peer, request_peers,
}
use postmarketos_x00td_cellu.Rm.Heap.{
  ResourceState, Prod, producer, Heap, Drivers, Object, einprogress, peer_of,
}

abbrev pub pending_of : Prod → ℕ → Prod
pending_of p t = record p { pending_request = t }

abbrev pub Any : ResourceState → Type 0
Any s = s ≡ s

-- No producer but `n`, and no resource below `i`, is changed.
pub record Framed (n i : ℕ) (h h' : ℕ → Option Object) : Type 0 where
  pub below : (j : ℕ) → n ≢ j → j < i → h' j ≡ h j
  pub producers : (j : ℕ) (q : Prod) → n ≢ j → h j ≡ some (producer q) → h' j ≡ some (producer q)

-- What the rounds from `i` on, `k` of them, come to.
pub data Looped (Q : Option PeersList → Type 0) (n : ℕ) (result : ℤ) (p : Prod) (l : PeersList)
    (k i : ℕ) (h : Heap) (r : Loop) (h' : Heap) : Type 0 where
  settled :
      (result' : ℤ)
      → r ≡ done result'
      → h'.object n
        ≡ some (producer (pending_of p (p.pending_request + length (waiting h'.object l k i))))
      → ((result' ≡ result) × (waiting h'.object l k i ≡ [])) ⊎ (result' ≡ einprogress)
      → ((j : ℕ) → i ≤ j → j < i + k → PeerAt IsAnswered Q h'.object l j)
      → Framed n i h.object h'.object
      → Looped Q n result p l k i h r h'
  stopped :
      (error : ℤ) (t : ℕ)
      → r ≡ bail error
      → IsError error
      → h'.object n ≡ some (producer (pending_of p t))
      → Looped Q n result p l k i h r h'

module _ (d : Drivers) (n : ℕ) (l : PeersList) (Q : Option PeersList → Type 0) where
  abbrev Peers : (ℕ → Option Object) → ℕ → ℕ → Type 0
  Peers g i k = (j : ℕ) → i ≤ j → j < i + k → PeerAt Any Q g l j

  -- A first round that leaves `result1` and, where the consumer waits, one more pending request, before
  -- the others.
  extend :
      (k i : ℕ) (result result1 : ℤ) (p : Prod) (t : ℕ) (h h1 : Heap) (r : Loop) (h' : Heap)
      (b : Bool)
      → h1.object n ≡ some (producer (pending_of p t))
      → waits_in h1.object (get_resource (pos i) l) ≡ b
      → t ≡ (if b then suc p.pending_request else p.pending_request)
      → (if b then result1 ≡ einprogress else result1 ≡ result)
      → PeerAt IsAnswered Q h1.object l i
      → Framed n i h.object h1.object
      → Looped Q n result1 (pending_of p t) l k (i + 1) h1 r h'
      → Looped Q n result p l (suc k) i h r h'
  extend k i result result1 p t h h1 r h' b e1 w te re at el (stopped error u x y z) =
      stopped error u x y z
  extend k i result result1 p t h h1 r h' b e1 w te re at el (settled result' x e y z u) =
      let (at', w') =
        carry IsAnswered Q h1.object h'.object l n i (pending_of p t) e1
          (λ o. u.below i o (omega arith)) at in
      let head : waiting h'.object l (suc k) i
          ≡ (if b then i ∷ waiting h'.object l k (i + 1) else waiting h'.object l k (i + 1)) =
        waiting-head h'.object l k i b (w' ∙ w) in
      let (count, verdict) =
        tally b (p.pending_request) t _ _ result result1 result' head te re y in
      settled result' x (e ∙ ap (λ t. some (producer (pending_of p t))) count) verdict
        (first_or_later (λ j. PeerAt IsAnswered Q h'.object l j) i k at' z)
        (record {
          below = λ j o q. u.below j o (omega arith) ∙ el.below j o q;
          producers = λ j q o f. u.producers j q o (el.producers j q o f);
        })
    where
      tally :
          (b : Bool) (before t : ℕ) (all rest : List ℕ) (result result1 result' : ℤ)
          → all ≡ (if b then i ∷ rest else rest)
          → t ≡ (if b then suc before else before)
          → (if b then result1 ≡ einprogress else result1 ≡ result)
          → ((result' ≡ result1) × (rest ≡ [])) ⊎ (result' ≡ einprogress)
          → (t + length rest ≡ before + length all)
            × (((result' ≡ result) × (all ≡ [])) ⊎ (result' ≡ einprogress))
      tally true before t all rest result result1 result' a e r (inl (x, y)) =
          (omega (arith, e, ap length a), inr (x ∙ r))
      tally true before t all rest result result1 result' a e r (inr x) =
          (omega (arith, e, ap length a), inr x)
      tally false before t all rest result result1 result' a e r (inl (x, y)) =
          (omega (arith, e, ap length a), inl (x ∙ r, a ∙ y))
      tally false before t all rest result result1 result' a e r (inr x) =
          (omega (arith, e, ap length a), inr x)

  unchanged : {i : ℕ} {g : ℕ → Option Object} → Framed n i g g
  unchanged = record { below = λ j o a. refl; producers = λ j q o e. e }

  pub request_peers-Ends :
      (k i : ℕ) (result : ℤ) (p : Prod) (h : Heap)
      → h.object n ≡ some (producer p)
      → p.resource.peers_list ≡ some l
      → Peers h.object i k
      → Ends (request_peers d n result k i h) (Looped Q n result p l k i h)
  unfolding request_peers request_peer waiting
  request_peers-Ends zero i result p h e pl at =
      settled result refl (e ∙ ap (λ t. some (producer (pending_of p t))) (omega arith))
        (inl (refl, refl)) (λ j a b. absurd (omega arith)) unchanged
  request_peers-Ends (suc k) i result p h e pl at = elim (at i (omega arith) (omega arith)) [
    | vacant v ↦
        let none_there : peer_of p.resource i ≡ some none = rw pl v in
        rw (e, none_there)
          (Ends-map (request_peers d n result k (i + 1) h) _
            (request_peers-Ends k (i + 1) result p h e pl λ j a b. at j (omega arith) (omega arith))
            λ r h'.
              extend k i result result p p.pending_request h h r h' false e (rw v refl) refl refl
                (vacant v) unchanged)
    | filled v c f s q ↦
        let some_there : peer_of p.resource i ≡ some (some i) = rw pl v in
        let apart = producer-consumer h.object n i p c e f in
        rw (e, some_there)
          (Ends-then (request_one d n i result h) _ _
            (request_one-Ends d n i apart result p c h e f)
            λ lp h1 o.
              let still : Peers h1.object (i + 1) k = λ j a b.
                (carry Any Q h.object h1.object l n j p e (λ x. o.elsewhere j x (omega arith))
                  (at j (omega arith) (omega arith))).0 in
              let before : Framed n i h.object h1.object = record {
                below = λ j x b. o.elsewhere j x (omega arith);
                producers = λ j q x g.
                    o.elsewhere j x (λ y. producer-consumer h.object j i q c g f (sym y)) ∙ g;
              } in
              let listed = subst Q (sym o.same_peers) q in
              elim o.round [
                | round_refuses error x y z ↦ rw x (stopped error o.pending refl y o.at_producer)
                | round_grants x y z ↦ rw x (
                    Ends-map (request_peers d n result k (i + 1) h1) _
                      (request_peers-Ends k (i + 1) result (pending_of p o.pending) h1 o.at_producer
                        pl still)
                      λ r h'.
                        extend k i result result p o.pending h h1 r h' false o.at_producer
                          (rw (v, o.at_consumer, z) refl) y refl
                          (filled v o.asked o.at_consumer
                            (subst IsAnswered (sym z) answered_granted) listed)
                          before)
                | round_waits x y z ↦ rw x (
                    Ends-map (request_peers d n einprogress k (i + 1) h1) _
                      (request_peers-Ends k (i + 1) einprogress (pending_of p o.pending) h1
                        o.at_producer pl still)
                      λ r h'.
                        extend k i result einprogress p o.pending h h1 r h' true o.at_producer
                          (rw (v, o.at_consumer, z) refl) y refl
                          (filled v o.asked o.at_consumer
                            (subst IsAnswered (sym z) answered_waiting) listed)
                          before)
              ])
  ]
