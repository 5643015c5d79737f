-- ===== src/Rm/ReleaseLoop.antt =====
-- A producer's release, over all its consumers.
use postmarketos_x00td_cellu.Common.{
  ℕ, zero, suc, ◌+◌, ◌-◌, ◌<◌, ◌≤◌, ◌≡◌, ◌≢◌, refl, sym, ap, ◌∙◌, ◌⊎◌, inl, inr, true, Option, none,
  some, ==-refl, ==-ne, arith,
}
use postmarketos_x00td_cellu.Common.Int.{ℤ, pos}
use postmarketos_x00td_cellu.Rm.PeersList.{PeersList, get_size, get_resource}
use postmarketos_x00td_cellu.Rm.Outcome.{
  Ends, Returns, Returns-map, Returns-then, Ends-Returns, Returns-Ends,
}
use postmarketos_x00td_cellu.Rm.Released.{
  consumer_release-Ends, Release, IsHeld, held_granted, held_requested,
}
use postmarketos_x00td_cellu.Rm.Consumer.{consumer_release}
use postmarketos_x00td_cellu.Rm.Peering.{
  PeerAt, vacant, filled, producer-consumer, carry, first_or_later,
}
use postmarketos_x00td_cellu.Rm.RequestLoop.{Any}
use postmarketos_x00td_cellu.Rm.Producer.{
  release_one, release_peer, release_peers, stop_producer, release_switch, producer_release,
  put_prod,
}
use postmarketos_x00td_cellu.Rm.Heap.{
  ResourceState, released, release_in_progress, Prod, consumer, producer, Heap, Drivers, Cons,
  peer_of, size_of, prod_state, Object,
}

abbrev releasing : Prod → ℕ → Prod
releasing p t = record p { pending_release = t }

-- Any list.
abbrev pub AnyList : Option PeersList → Type 0
AnyList pl = pl ≡ pl

-- What a producer's release does at an index of its list: nothing, where the index is free, and one
-- release of the producer's bandwidth by a user, where the index names a consumer.
pub data OneRelease (n bw : ℕ) (l : PeersList) (g g' : ℕ → Option Object) (j : ℕ) : Type 0 where
  no_peer : get_resource (pos j) l ≡ some none → (n ≢ j → g' j ≡ g j) → OneRelease n bw l g g' j
  one_peer :
      get_resource (pos j) l ≡ some (some j)
      → (c c' : Cons) (r : ℤ) → g j ≡ some (consumer c)
      → g' j ≡ some (consumer c')
      → Release c bw true r c'
      → OneRelease n bw l g g' j

-- The same between heaps that differ at the producer only.
moved :
    (n bw : ℕ) (p : Prod) (l : PeersList) (f g g' f' : ℕ → Option Object) (j : ℕ)
    → g n ≡ some (producer p)
    → (n ≢ j → g j ≡ f j)
    → (n ≢ j → f' j ≡ g' j)
    → OneRelease n bw l g g' j
    → OneRelease n bw l f f' j
moved n bw p l f g g' f' j e a b (no_peer v q) = no_peer v (λ d. b d ∙ q d ∙ a d)
moved n bw p l f g g' f' j e a b (one_peer v c c' r at there u) =
    let d = producer-consumer g n j p c e at in one_peer v c c' r (sym (a d) ∙ at) (b d ∙ there) u

module _ (d : Drivers) (n : ℕ) (p : Prod) where
  -- A round leaves the producer as it was, and changes its consumer only, by one release.
  abbrev Kept : ℕ → Cons → Heap → Heap → Type 0
  Kept m c h h' =
      (h'.object n ≡ some (producer p))
      × ((k : ℕ) → n ≢ k → m ≢ k → h'.object k ≡ h.object k)
      × (c' : Cons) × (r : ℤ) × (h'.object m ≡ some (consumer c'))
      × Release c p.resource.max_bw true r c'

  release_one-Kept :
      (m : ℕ) (c : Cons) (h : Heap)
      → n ≢ m
      → h.object n ≡ some (producer p)
      → h.object m ≡ some (consumer c)
      → Returns (release_one d n m h) (Kept m c h)
  unfolding release_one
  release_one-Kept m c h apart e f =
      let p1 = releasing p (p.pending_release + 1) in
      let h1 = put_prod n p1 h in
      let f1 : h1.object m ≡ some (consumer c) = rw (==-ne n m apart) f in
      let back : p.pending_release + 1 - 1 ≡ p.pending_release = omega arith in
      rw e (
        Ends-Returns (consumer_release d m p.resource.max_bw true h1) _ _
          (consumer_release-Ends d m p.resource.max_bw true c h1 f1)
          λ r h2 (c2, mv, v).
            let e2 : h2.object n ≡ some (producer p1) =
              mv.elsewhere n (λ q. apart (sym q)) ∙ rw (==-refl n) refl in
            rw e2 (
              rw (==-refl n) (ap (λ t. some (producer (releasing p t))) back),
              (λ k o q. rw (==-ne n k o) (mv.elsewhere k q ∙ rw (==-ne n k o) refl)),
              c2,
              r,
              rw (==-ne n m apart) mv.there,
              v,
            ))

  -- The rounds from an index on release each consumer of theirs once, and change no other resource.
  abbrev Rounds : PeersList → ℕ → ℕ → Heap → Heap → Type 0
  Rounds l k i h h' =
      (h'.object n ≡ some (producer p))
      × ((j : ℕ) → i ≤ j → j < i + k → OneRelease n p.resource.max_bw l h.object h'.object j)
      × ((m : ℕ) → n ≢ m → (m < i) ⊎ (i + k ≤ m) → h'.object m ≡ h.object m)

  abbrev One : PeersList → Heap → Heap → ℕ → Type 0
  One l h h' = OneRelease n p.resource.max_bw l h.object h'.object

  skipped :
      (l : PeersList) (k i : ℕ) (h h' : Heap)
      → get_resource (pos i) l ≡ some none
      → Rounds l k (i + 1) h h'
      → Rounds l (suc k) i h h'
  skipped l k i h h' v (e, ones, same) = (
    e,
    first_or_later (One l h h') i k (no_peer v (λ d. same i d (inl (omega arith)))) ones,
    λ m d b. same m d (ground arith),
  )

  told :
      (l : PeersList) (k i : ℕ) (c : Cons) (h h1 h' : Heap)
      → get_resource (pos i) l ≡ some (some i)
      → h.object i ≡ some (consumer c)
      → n ≢ i
      → Kept i c h h1
      → Rounds l k (i + 1) h1 h'
      → Rounds l (suc k) i h h'
  told l k i c h h1 h' v f apart (e1, same1, c1, r, there, u) (e, ones, same) = (
    e,
    first_or_later (One l h h') i k
        (one_peer v c c1 r f (same i apart (inl (omega arith)) ∙ there) u)
        (λ j a b.
          moved n p.resource.max_bw p l h.object h1.object h'.object h'.object j e1
            (λ o. same1 j o (omega arith)) (λ o. refl) (ones j a b)),
    λ m d b. same m d (ground arith) ∙ same1 m d (ground arith),
  )

  release_peers-Rounds :
      (l : PeersList)
      → p.resource.peers_list ≡ some l
      → (k i : ℕ) (h : Heap) → h.object n ≡ some (producer p)
      → ((j : ℕ) → i ≤ j → j < i + k → PeerAt Any AnyList h.object l j)
      → Returns (release_peers d n k i h) (Rounds l k i h)
  unfolding release_peers release_peer
  release_peers-Rounds l pl zero i h e at = (e, λ j a b. absurd (omega arith), λ m d b. refl)
  release_peers-Rounds l pl (suc k) i h e at = elim (at i (omega arith) (omega arith)) [
    | vacant v ↦
        let none_there : peer_of p.resource i ≡ some none = rw pl v in
        rw (e, none_there)
          (Returns-map (release_peers d n k (i + 1) h) _
            (release_peers-Rounds l pl k (i + 1) h e λ j a b. at j (omega arith) (omega arith))
            λ h' r. skipped l k i h h' v r)
    | filled v c f s q ↦
        let some_there : peer_of p.resource i ≡ some (some i) = rw pl v in
        let apart = producer-consumer h.object n i p c e f in
        rw (e, some_there)
          (Returns-then (release_one d n i h) _ _ (release_one-Kept i c h apart e f) λ h1 kept.
            Returns-map (release_peers d n k (i + 1) h1) _
              (release_peers-Rounds l pl k (i + 1) h1 kept.0 λ j a b.
                (carry Any AnyList h.object h1.object l n j p e (λ o. kept.1 j o (omega arith))
                  (at j (omega arith) (omega arith))).0)
              λ h' r. told l k i c h h1 h' v f apart kept r)
  ]

module _ (d : Drivers) (n : ℕ) (p : Prod) (l : PeersList) (h : Heap) where
  -- The result, the producer, the consumers of the list and the other resources.
  abbrev pub AllReleased : ℤ → Heap → Type 0
  AllReleased r h' =
      (r ≡ pos 0)
      × (h'.object n ≡ some (producer (prod_state (releasing p 0) released)))
      × ((j : ℕ) → j < get_size l → OneRelease n p.resource.max_bw l h.object h'.object j)
      × ((m : ℕ) → n ≢ m → get_size l ≤ m → h'.object m ≡ h.object m)

  stop_producer-released :
      h.object n ≡ some (producer p)
      → p.resource.peers_list ≡ some l
      → ((j : ℕ) → j < get_size l → PeerAt Any AnyList h.object l j)
      → Ends (stop_producer d n p h) AllReleased
  unfolding stop_producer
  stop_producer-released e pl at =
      let q = releasing (prod_state p release_in_progress) 0 in
      let size : size_of p.resource ≡ some (get_size l) = rw pl refl in
      let h0 = put_prod n q h in
      rw size (
        Returns-Ends (release_peers d n (get_size l) 0 h0) _ _
          (release_peers-Rounds d n q l pl (get_size l) 0 h0 (rw (==-refl n) refl) λ j a b.
            (carry Any AnyList h.object h0.object l n j p e (λ o. rw (==-ne n j o) refl)
              (at j (omega arith))).0)
          λ h1 (e1, ones, same). rw e1 (
            refl,
            rw (==-refl n) refl,
            (λ j b.
                moved n p.resource.max_bw q l h.object h0.object h1.object _ j (rw (==-refl n) refl)
                  (λ o. rw (==-ne n j o) refl) (λ o. rw (==-ne n j o) refl)
                  (ones j (omega arith) (omega arith))),
            (λ m o b. rw (==-ne n m o) (same m o (inr (omega arith)) ∙ rw (==-ne n m o) refl)),
          ))

  held_switch :
      (s : ResourceState)
      → IsHeld s
      → (Q : ℤ → Heap → Type 0) → Ends (stop_producer d n p h) Q
      → Ends (release_switch d s n p h) Q
  unfolding release_switch
  held_switch _ held_granted Q t = t
  held_switch _ held_requested Q t = t

  -- A release of a producer that is granted or requested, each entry of whose list is free or names the
  -- consumer of its index, returns 0 and leaves the producer released with no pending release, whatever
  -- the consumers' releases come to. Each consumer of the list ends as after one release of the producer's
  -- bandwidth by a user, and no other resource changes.
  pub producer_release-released :
      h.object n ≡ some (producer p)
      → IsHeld p.resource.state
      → p.resource.peers_list ≡ some l
      → ((j : ℕ) → j < get_size l → PeerAt Any AnyList h.object l j)
      → Ends (producer_release d n h) AllReleased
  unfolding producer_release
  producer_release-released e held pl at =
      rw e (held_switch p.resource.state held _ (stop_producer-released e pl at))
