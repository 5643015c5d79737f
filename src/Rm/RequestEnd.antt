-- ===== src/Rm/RequestEnd.antt =====
-- A producer's request as a whole.
use postmarketos_x00td_cellu.Common.{
  ℕ, ◌<◌, ◌≡◌, ◌≢◌, refl, sym, ap, ◌∙◌, ◌⊎◌, inl, inr, false, Option, some, ◌==◌, ==-refl, ==-ne,
  arith, List, [], ◌∷◌, length,
}
use mathlib.Core.Bool.{true≢false}
use postmarketos_x00td_cellu.Common.Int.{ℤ, pos}
use postmarketos_x00td_cellu.Rm.PeersList.{PeersList, get_resource, get_size}
use postmarketos_x00td_cellu.Rm.Outcome.{Ends, Ends-then, IsError}
use postmarketos_x00td_cellu.Rm.Peering.{
  PeerAt, vacant, filled, IsAnswered, answered_granted, answered_waiting, waits_in, waiting, carry,
  nobody_waits,
}
use postmarketos_x00td_cellu.Rm.RequestLoop.{
  Looped, settled, stopped, pending_of, Any, request_peers-Ends,
}
use postmarketos_x00td_cellu.Rm.Producer.{
  Loop, request_peers, request_end, start_producer, request_switch, producer_request, put_prod,
}
use postmarketos_x00td_cellu.Rm.Heap.{
  ResourceState, request_in_progress, granted, Prod, producer, Heap, Drivers, Object, einprogress,
  is_coming, prod_state, released, release_in_progress, size_of,
}

abbrev pub IsGranted : ResourceState → Type 0
IsGranted s = s ≡ granted

-- The state that a request can start from.
pub data IsOff : ResourceState → Type 0 where
  off_released : IsOff released
  off_leaving : IsOff release_in_progress

-- What a producer's request comes to.
pub data Outcome (Q : Option PeersList → Type 0) (n : ℕ) (p : Prod) (l : PeersList)
    (h : ℕ → Option Object) (r : ℤ) (h' : ℕ → Option Object) : Type 0 where
  all_granted :
      r ≡ pos 0
      → h' n ≡ some (producer (prod_state (pending_of p 0) granted))
      → ((j : ℕ) → j < get_size l → PeerAt IsGranted Q h' l j)
      → Outcome Q n p l h r h'
  some_wait :
      r ≡ einprogress
      → 0 < length (waiting h' l (get_size l) 0)
      → h' n
        ≡ some (
            producer (
              prod_state (pending_of p (length (waiting h' l (get_size l) 0))) request_in_progress))
      → ((j : ℕ) → j < get_size l → PeerAt IsAnswered Q h' l j)
      → ((j : ℕ) (q : Prod) → n ≢ j → h j ≡ some (producer q) → h' j ≡ some (producer q))
      → Outcome Q n p l h r h'
  one_refuses :
      (t : ℕ)
      → IsError r
      → h' n ≡ some (producer (prod_state (pending_of p t) request_in_progress))
      → Outcome Q n p l h r h'

answered-IsGranted :
    (Q : Option PeersList → Type 0) (g : ℕ → Option Object) (l : PeersList) (j : ℕ)
    → waits_in g (get_resource (pos j) l) ≡ false
    → PeerAt IsAnswered Q g l j
    → PeerAt IsGranted Q g l j
answered-IsGranted Q g l j w (vacant v) = vacant v
answered-IsGranted Q g l j w (filled v c f s q) =
    filled v c f (of_state c.resource.state s (sym (rw (v, f) refl) ∙ w)) q
  where
    of_state : (s : ResourceState) → IsAnswered s → is_coming s ≡ false → s ≡ granted
    of_state _ answered_granted e = refl
    of_state _ answered_waiting e = absurd (true≢false e)

module _ (d : Drivers) (n : ℕ) (Q : Option PeersList → Type 0) (p : Prod) (l : PeersList) where
  request_end-Ends :
      (g : ℕ → Option Object) (r : Loop) (h h' : Heap)
      → ((j : ℕ) (q : Prod) → n ≢ j → g j ≡ some (producer q) → h.object j ≡ some (producer q))
      → let q = pending_of (prod_state p request_in_progress) 0 in
        Looped Q n (pos 0) q l (get_size l) 0 h r h'
        → Ends (request_end d n r h') λ r h2. Outcome Q n p l g r h2.object
  unfolding request_end
  request_end-Ends g r h h' same (stopped error t x y z) = rw x (one_refuses t y z)
  request_end-Ends g r h h' same (settled result x e y z u) =
      let ws = waiting h'.object l (get_size l) 0 in
      let q : ℕ → Prod = λ t. pending_of (prod_state p request_in_progress) t in
      let at : h'.object n ≡ some (producer (q (length ws))) =
        e ∙ ap (λ t. some (producer (q t))) (omega arith) in
      elim (none_or_some ws) [
        | inl w ↦
            let at0 : h'.object n ≡ some (producer (q 0)) =
              at ∙ ap (λ (ws : List ℕ). some (producer (q (length ws)))) w in
            rw (x, at0)
              (all_granted refl (rw (==-refl n) refl) λ j a.
                (carry IsGranted Q h'.object (put_prod n (prod_state (q 0) granted) h').object l n j
                  (q 0) at0 (λ o. rw (==-ne n j o))
                  (answered-IsGranted Q h'.object l j
                    (nobody_waits h'.object l (get_size l) 0 w j (omega arith) (omega arith))
                    (z j (omega arith) (omega arith)))).0)
        | inr w ↦
            rw (x, at, w.0)
              (some_wait (waits y w.1) w.1 at (λ j a. z j (omega arith) (omega arith))
                λ j q o f. u.producers j q o (same j q o f))
      ]
    where
      none_or_some : (xs : List ℕ) → (xs ≡ []) ⊎ (((length xs == 0) ≡ false) × (0 < length xs))
      none_or_some [] = inl refl
      none_or_some (x ∷ xs) = inr (ground arith, omega arith)

      waits :
          {xs : List ℕ} {result : ℤ}
          → ((result ≡ pos 0) × (xs ≡ [])) ⊎ (result ≡ einprogress)
          → 0 < length xs
          → result ≡ einprogress
      waits (inl (a, b)) c = absurd (omega (arith, ap length b))
      waits (inr a) c = a

  start_producer-Ends :
      (h : Heap)
      → h.object n ≡ some (producer p)
      → p.resource.peers_list ≡ some l
      → ((j : ℕ) → j < get_size l → PeerAt Any Q h.object l j)
      → Ends (start_producer d n p h) λ r h'. Outcome Q n p l h.object r h'.object
  unfolding start_producer
  start_producer-Ends h e pl at =
      let q = pending_of (prod_state p request_in_progress) 0 in
      let size : size_of p.resource ≡ some (get_size l) = rw pl refl in
      let h0 = put_prod n q h in
      rw size (
        Ends-then (request_peers d n (pos 0) (get_size l) 0 h0) _ _
          (request_peers-Ends d n l Q (get_size l) 0 (pos 0) q h0 (rw (==-refl n) refl) pl λ j a b.
            (carry Any Q h.object h0.object l n j p e (λ o. rw (==-ne n j o))
              (at j (omega arith))).0)
          λ r h'. request_end-Ends h.object r h0 h' λ j q o f. rw (==-ne n j o) f)

  off_switch :
      (s : ResourceState)
      → IsOff s
      → (h : Heap) → Ends (start_producer d n p h) (λ r h'. Outcome Q n p l h.object r h'.object)
      → Ends (request_switch d s n p h) λ r h'. Outcome Q n p l h.object r h'.object
  unfolding request_switch
  off_switch _ off_released h t = t
  off_switch _ off_leaving h t = t

  -- A request of a producer that is released or being released, each entry of whose list is free or
  -- names the consumer of its index, returns. On 0 the producer is granted, and so are all its
  -- consumers. On -EINPROGRESS it waits for exactly the consumers whose requests are in progress, which
  -- are as many as its count of pending requests and at least one, the others are granted, and no other
  -- producer is changed. On another result, it is left in REQUEST_IN_PROGRESS.
  pub producer_request-Outcome :
      (h : Heap)
      → h.object n ≡ some (producer p)
      → IsOff p.resource.state
      → p.resource.peers_list ≡ some l
      → ((j : ℕ) → j < get_size l → PeerAt Any Q h.object l j)
      → Ends (producer_request d n h) λ r h'. Outcome Q n p l h.object r h'.object
  unfolding producer_request
  producer_request-Outcome h e off pl at =
      rw e (off_switch p.resource.state off h (start_producer-Ends h e pl at))
