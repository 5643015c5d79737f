-- ===== src/Rm/Dependent.antt =====
-- A dependency is added and deleted.
use postmarketos_x00td_cellu.Common.{
  ℕ, ◌<◌, ◌≡◌, ◌≢◌, refl, sym, ap, subst, not, ◌∙◌, ◌⊎◌, inl, inr, Bool, true, false, Option, none,
  some, get_elem?, ==-refl, ==-ne, arith,
}
use postmarketos_x00td_cellu.Common.Fault.{>>=-some}
use postmarketos_x00td_cellu.Common.Int.{pos}
use postmarketos_x00td_cellu.Rm.PeersList.{
  PeersList, no_peer, peer_at, get_resource_index, check_dependency,
}
use postmarketos_x00td_cellu.Rm.Peering.{producer-consumer}
use postmarketos_x00td_cellu.Rm.Dependency.{
  dependency_of, change_base, with_peer, without_peer, join_turn, join_resources, add_dependency,
  leave_turn, leave_consumer, delete_dependency,
}
use postmarketos_x00td_cellu.Rm.Heap.{
  released, Resource, Cons, Prod, Object, producer, consumer, Heap, Drivers, put, update, add_u32,
  sub_u32, eexist,
}
use postmarketos_x00td_cellu.Rm.Added.{
  chosen, sub-add, added, add_peer_lem, remove_peer-added, added_there, change_base_lem,
  same_side_refl, same_side-not,
}

-- A producer and a consumer with lists that do not hold each other, the producer released.
pub record Strangers (n m : ℕ) (p : Prod) (c : Cons) (lp lc : PeersList) (h : Heap) : Type 0 where
  pub at_producer : h.object n ≡ some (producer p)
  pub at_consumer : h.object m ≡ some (consumer c)
  pub is_released : p.resource.state ≡ released
  pub producer_list : p.resource.peers_list ≡ some lp
  pub consumer_list : c.resource.peers_list ≡ some lc
  pub producer_named : get_resource_index p.resource.name ≡ pos p.resource.name
  pub consumer_named : get_resource_index c.resource.name ≡ pos c.resource.name
  pub producer_free : get_elem? lp.peers c.resource.name ≡ some no_peer
  pub consumer_free : get_elem? lc.peers p.resource.name ≡ some no_peer
  pub producer_bw : p.resource.needed_bw < 4294967296
  pub consumer_bw : c.resource.max_bw < 4294967296

module _ (d : Drivers) (n m : ℕ) (p : Prod) (c : Cons) (lp lc : PeersList) (h : Heap) (u : Bool)
    (w : Strangers n m p c lp lc h) where
  apart : n ≢ m
  apart = producer-consumer h.object n m p c w.at_producer w.at_consumer

  abbrev joined_list : Prod
  joined_list = record p {
    resource = record p.resource { peers_list = some (added lp c.resource.name u) };
  }

  abbrev joined : Prod
  joined = record joined_list {
    resource = record joined_list.resource {
      needed_bw = add_u32 p.resource.needed_bw c.resource.max_bw;
    };
  }

  abbrev owner : Cons
  owner = record c {
    resource = record c.resource { peers_list = some (added lc p.resource.name u) };
  }

  with_peer_lem :
      (r : Resource) (l : PeersList) (name : ℕ)
      → r.peers_list ≡ some l
      → get_resource_index name ≡ pos name
      → get_elem? l.peers name ≡ some no_peer
      → with_peer name u r ≡ some (record r { peers_list = some (added l name u) })
  unfolding with_peer
  with_peer_lem r l name e named free = rw (e, add_peer_lem l name u named free) refl

  -- The heap between the two.
  record Joined (h1 : Heap) : Type 0 where
    at_producer : h1.object n ≡ some (producer joined)
    at_consumer : h1.object m ≡ some (consumer owner)
    elsewhere : (j : ℕ) → n ≢ j → m ≢ j → h1.object j ≡ h.object j

  unknown : dependency_of p.resource c.resource ≡ some (false, none)
  unfolding dependency_of check_dependency peer_at
  unknown =
      rw
        (
          w.producer_list, w.consumer_list, w.consumer_named, w.producer_named, w.producer_free,
          w.consumer_free,
        )
        refl

  join_resources_lem :
      (h1 : Heap) × (join_resources d n m p.resource c.resource u h ≡ some (pos 0, h1)) × Joined h1
  unfolding join_resources join_turn
  join_resources_lem =
      let h1 = put n (producer joined_list) h in
      let h2 = put m (consumer owner) h1 in
      let h3 = put n (producer joined) h2 in
      let m1 : h1.object m ≡ some (consumer c) = rw (==-ne n m apart) (w.at_consumer) in
      let n2 : h2.object n ≡ some (producer joined_list) =
        rw (==-ne m n (λ q. apart (sym q)), ==-refl n) refl in
      let c1 : change_base n (with_peer c.resource.name u) h ≡ some h1 =
        change_base_lem n (with_peer c.resource.name u) h (producer p) joined_list.resource
          w.at_producer
          (with_peer_lem p.resource lp c.resource.name w.producer_list w.consumer_named
            w.producer_free) in
      let c2 : change_base m (with_peer p.resource.name u) h1 ≡ some h2 =
        change_base_lem m (with_peer p.resource.name u) h1 (consumer c) owner.resource m1 (
          with_peer_lem c.resource lc p.resource.name w.consumer_list w.producer_named
            w.consumer_free) in
      let c3 : change_base n
            (λ r1. some (record r1 { needed_bw = add_u32 r1.needed_bw c.resource.max_bw })) h2
          ≡ some h3 =
        change_base_lem n
          (λ r1. some (record r1 { needed_bw = add_u32 r1.needed_bw c.resource.max_bw })) h2
          (producer joined_list) joined.resource n2 refl in
      let c4 : join_turn d p.resource.state n m h3 ≡ some (pos 0, h3) = rw (w.is_released) refl in
      (
        h3,
        rw (c1, c2, c3, c4) refl,
        record {
          at_producer = rw (==-refl n) refl;
          at_consumer = rw (==-ne n m apart, ==-refl m) refl;
          elsewhere = λ j o q. rw (==-ne n j o, ==-ne m j q) refl;
        },
      )

  add_dependency-Joined :
      (h1 : Heap) × (add_dependency d (some n) (some m) u h ≡ some (pos 0, h1)) × Joined h1
  unfolding add_dependency
  add_dependency-Joined =
      let (h1, e, v) = join_resources_lem in
      (h1, >>=-some _ w.at_producer ∙ >>=-some _ w.at_consumer ∙ >>=-some _ unknown ∙ e, v)

  without_peer_lem :
      (r : Resource) (l : PeersList) (name : ℕ)
      → r.peers_list ≡ some (added l name u)
      → get_resource_index name ≡ pos name
      → get_elem? l.peers name ≡ some no_peer
      → without_peer name r ≡ some (record r { peers_list = some l })
  unfolding without_peer
  without_peer_lem r l name e named free = rw (e, remove_peer-added l name u named free) refl

  known : dependency_of joined.resource owner.resource ≡ some (true, some u)
  unfolding dependency_of check_dependency peer_at
  known =
      rw
        (
          w.consumer_named,
          w.producer_named,
          added_there lp c.resource.name u w.consumer_named w.producer_free,
          added_there lc p.resource.name u w.producer_named w.consumer_free,
        )
        refl

  abbrev left : Prod
  left = record joined {
    resource = record joined.resource {
      needed_bw = sub_u32 joined.resource.needed_bw c.resource.max_bw;
    };
  }

  abbrev parted : Prod
  parted = record left { resource = record left.resource { peers_list = some lp } }

  abbrev parted_owner : Cons
  parted_owner = record owner { resource = record owner.resource { peers_list = some lc } }

  same_prod : parted ≡ p
  same_prod =
      ap (λ b. record p { resource = record p.resource { needed_bw = b; peers_list = some lp } })
        (sub-add p.resource.needed_bw c.resource.max_bw w.producer_bw w.consumer_bw)
      ∙ ap (λ l. record p { resource = record p.resource { peers_list = l } }) (sym w.producer_list)

  same_cons : parted_owner ≡ c
  same_cons =
      ap (λ l. record c { resource = record c.resource { peers_list = l } }) (sym w.consumer_list)

  leave_consumer_lem :
      (h1 : Heap)
      → Joined h1
      → (h2 : Heap) × (leave_consumer d n m joined.resource owner.resource h1 ≡ some (pos 0, h2))
        × ((j : ℕ) → h2.object j ≡ h.object j)
  unfolding leave_consumer leave_turn
  leave_consumer_lem h1 v =
      let k1 = put n (producer left) h1 in
      let k2 = put n (producer parted) k1 in
      let k3 = put m (consumer parted_owner) k2 in
      let a1 : k1.object n ≡ some (producer left) = rw (==-refl n) refl in
      let a2 : k2.object m ≡ some (consumer owner) = rw (==-ne n m apart) v.at_consumer in
      let c1 : change_base n
            (λ r1. some (record r1 { needed_bw = sub_u32 r1.needed_bw c.resource.max_bw })) h1
          ≡ some k1 =
        change_base_lem n
          (λ r1. some (record r1 { needed_bw = sub_u32 r1.needed_bw c.resource.max_bw })) h1
          (producer joined) left.resource v.at_producer refl in
      let c2 : change_base n (without_peer c.resource.name) k1 ≡ some k2 =
        change_base_lem n (without_peer c.resource.name) k1 (producer left) parted.resource a1 (
          without_peer_lem left.resource lp c.resource.name refl w.consumer_named
            w.producer_free) in
      let c3 : change_base m (without_peer p.resource.name) k2 ≡ some k3 =
        change_base_lem m (without_peer p.resource.name) k2 (consumer owner) parted_owner.resource
          a2
          (without_peer_lem owner.resource lc p.resource.name refl w.producer_named
            w.consumer_free) in
      let t : leave_turn d p.resource.state n c.resource.state k1 ≡ some (false, none, k1) =
        rw (w.is_released) refl in
      (k3, rw (c1, t, c2, c3) refl, λ j. back j (equal n j) (equal m j))
    where
      equal : (i j : ℕ) → (i ≡ j) ⊎ (i ≢ j)
      equal i j = ground arith

      k3 : ℕ → Option Object
      k3 =
          update (update (update h1.object n (some (producer left))) n (some (producer parted))) m
            (some (consumer parted_owner))

      back : (j : ℕ) → (n ≡ j) ⊎ (n ≢ j) → (m ≡ j) ⊎ (m ≢ j) → k3 j ≡ h.object j
      back j a (inl y) =
          subst (λ j. k3 j ≡ h.object j) y
            (rw (==-refl m) (ap (λ c. some (consumer c)) same_cons ∙ sym w.at_consumer))
      back j (inl x) (inr y) =
          subst (λ j. k3 j ≡ h.object j) x
            (rw (==-ne m n (λ q. apart (sym q)), ==-refl n)
              (ap (λ p. some (producer p)) same_prod ∙ sym w.at_producer))
      back j (inr x) (inr y) = rw (==-ne m j y, ==-ne n j x) (v.elsewhere j x y)

  -- A dependency of a released producer on a consumer, which neither list holds yet, is added and returns
  -- 0; adding it again returns -EEXIST and changes nothing; deleting it for the other side returns 0
  -- and changes nothing; deleting it for the same side returns 0, and then every resource is as it was
  -- before.
  pub add_dependency-delete_dependency :
      (h1 : Heap) × (add_dependency d (some n) (some m) u h ≡ some (pos 0, h1))
      × ((v : Bool) → add_dependency d (some n) (some m) v h1 ≡ some (eexist, h1))
      × (delete_dependency d (some n) (some m) (not u) h1 ≡ some (pos 0, h1))
      × (h2 : Heap) × (delete_dependency d (some n) (some m) u h1 ≡ some (pos 0, h2))
      × ((j : ℕ) → h2.object j ≡ h.object j)
  unfolding add_dependency delete_dependency
  add_dependency-delete_dependency =
      let (h1, e, v) = add_dependency-Joined in
      let (h2, l, same) = leave_consumer_lem h1 v in
      (
        h1,
        e,
        λ b. rw (v.at_producer, v.at_consumer, known) refl,
        rw (v.at_producer, v.at_consumer, known, same_side-not u) refl,
        h2,
        >>=-some _ v.at_producer
            ∙ >>=-some _ v.at_consumer
            ∙ >>=-some _ known
            ∙ chosen _ (same_side_refl u)
            ∙ l,
        same,
      )
