-- ===== src/Rm/Counted.antt =====
-- ipa_rm_peers_list.c: the count of a peers list, through additions and removals.
use postmarketos_x00td_cellu.Common.{
  ℕ, zero, suc, ◌+◌, ◌≤◌, ◌<◌, ◌≡◌, ◌≢◌, refl, sym, ap, ◌∙◌, Bool, true, false, not, Option, none,
  some, List, [], ◌∷◌, length, get_elem?, set, replicate, length-replicate, length-set,
  get_elem?-set_self, get_elem?-set_ne, ltb, ◌==◌, arith,
}
use mathlib.Core.Option.{none-ne-some, some-injective}
use postmarketos_x00td_cellu.Common.Fault.{◌>>=◌}
use postmarketos_x00td_cellu.Common.Int.{pos}
use postmarketos_x00td_cellu.Rm.{is_prod, is_cons, ipa_rm_prod_index, ipa_rm_cons_index}
use postmarketos_x00td_cellu.Rm.PeersList.{
  Peer, PeersList, no_peer, incr, decr, get_resource_index, peer_at, put_peer, check_index, create,
  remove_peer, add_peer, is_empty, has_last_peer, positive, is_one, get_resource, check_dependency,
}

abbrev pub occupied : Option ℕ → ℕ
occupied none = 0
occupied (some name) = 1

abbrev pub present : List Peer → ℕ
present [] = 0
present (p ∷ ps) = occupied p.resource + present ps

pub record IsPeersList (l : PeersList) : Type 0 where
  pub size : length l.peers ≡ l.max_peers
  pub counted : l.peers_count ≡ pos (present l.peers)

-- Storing a peer over another one.
present-set :
    (ps : List Peer) (i : ℕ) (p q : Peer)
    → get_elem? ps i ≡ some p
    → present (set ps i q) + occupied p.resource ≡ present ps + occupied q.resource
present-set [] i p q e = absurd (none-ne-some p e)
present-set (x ∷ ps) zero p q e =
    omega (arith, ap (λ r. occupied r.resource) (some-injective x p e))
present-set (x ∷ ps) (suc i) p q e = omega (arith, present-set ps i p q e)

present-replicate : (n : ℕ) → present (replicate n no_peer) ≡ 0
present-replicate zero = refl
present-replicate (suc n) = omega (arith, present-replicate n)

pub get_elem?-bound :
    {A : Type 0} (xs : List A) (i : ℕ) (a : A) → get_elem? xs i ≡ some a → i < length xs
get_elem?-bound [] i a e = absurd (none-ne-some a e)
get_elem?-bound (x ∷ xs) zero a e = omega arith
get_elem?-bound (x ∷ xs) (suc i) a e = omega (arith, get_elem?-bound xs i a e)

-- A new list, where both allocations succeed, is empty and well-formed.
pub create-IsPeersList :
    (max_peers : ℕ)
    → (l : PeersList) × (create max_peers true true ≡ some l) × IsPeersList l × (is_empty l ≡ true)
unfolding create is_empty positive
create-IsPeersList max_peers =
    let l : PeersList = record {
      peers = replicate max_peers no_peer;
      max_peers = max_peers;
      peers_count = pos 0;
    } in
    (
      l,
      refl,
      record {
        size = length-replicate max_peers no_peer;
        counted = ap pos (sym (present-replicate max_peers));
      },
      refl,
    )

module _ (l : PeersList) (w : IsPeersList l) (name : ℕ) (named : get_resource_index name ≡ pos name)
    (p : Peer) (here : get_elem? l.peers name ≡ some p) where
  -- Adding a peer that the list does not hold, at an index inside it, keeps the list well-formed. The
  -- peer and its flag are found at its index, and every other index reads as before.
  pub add_peer-IsPeersList :
      (userspace_dep : Bool)
      → p.resource ≡ none
      → (l' : PeersList) × (add_peer l (some name) userspace_dep ≡ some l')
        × IsPeersList l'
        × (peer_at l'.peers (pos name)
            ≡ some (record { resource = some name; userspace_dep = userspace_dep }))
        × ((j : ℕ) → name ≢ j → peer_at l'.peers (pos j) ≡ peer_at l.peers (pos j))
  unfolding add_peer incr peer_at put_peer
  add_peer-IsPeersList userspace_dep absent =
      let q : Peer = record { resource = some name; userspace_dep = userspace_dep } in
      let bound : name < length l.peers = get_elem?-bound l.peers name p here in
      let inside : ltb name (length l.peers) ≡ true = ground arith in
      let l' : PeersList = record l {
        peers = set l.peers name q;
        peers_count = incr l.peers_count;
      } in
      let one_more : suc (present l.peers) ≡ present (set l.peers name q) =
        omega (arith, present-set l.peers name p q here, ap occupied absent) in
      (
        l',
        rw (named, inside),
        record {
          size = length-set l.peers name q ∙ w.size;
          counted = ap incr w.counted ∙ ap pos one_more;
        },
        get_elem?-set_self l.peers name q bound,
        λ j other. get_elem?-set_ne l.peers name j q other,
      )

  -- Removing a peer that the list holds keeps the list well-formed: its index is free then, and every
  -- other index reads as before.
  pub remove_peer-IsPeersList :
      (resource : ℕ)
      → p.resource ≡ some resource
      → (l' : PeersList) × (remove_peer l name ≡ some l')
        × IsPeersList l'
        × (peer_at l'.peers (pos name) ≡ some no_peer)
        × ((j : ℕ) → name ≢ j → peer_at l'.peers (pos j) ≡ peer_at l.peers (pos j))
  unfolding remove_peer decr peer_at put_peer
  remove_peer-IsPeersList resource held =
      let bound : name < length l.peers = get_elem?-bound l.peers name p here in
      let inside : ltb name (length l.peers) ≡ true = ground arith in
      let l' : PeersList = record l {
        peers = set l.peers name no_peer;
        peers_count = decr l.peers_count;
      } in
      let one_less : present l.peers ≡ suc (present (set l.peers name no_peer)) =
        omega (arith, present-set l.peers name p no_peer here, ap occupied held) in
      (
        l',
        rw (named, inside),
        record {
          size = length-set l.peers name no_peer ∙ w.size;
          counted = ap decr (w.counted ∙ ap pos one_less);
        },
        get_elem?-set_self l.peers name no_peer bound,
        λ j other. get_elem?-set_ne l.peers name j no_peer other,
      )

-- On a well-formed list, ipa_rm_peers_list_is_empty and ipa_rm_peers_list_has_last_peer tell
-- whether no peer and whether exactly one is in the array.
pub is_empty-present :
    (l : PeersList)
    → IsPeersList l
    → (is_empty l ≡ (present l.peers == 0)) × (has_last_peer l ≡ (present l.peers == 1))
unfolding is_empty has_last_peer positive is_one
is_empty-present l w = (rw (w.counted) (zero_test (present l.peers)), rw (w.counted))
  where
    zero_test : (n : ℕ) → not (ltb 0 n) ≡ (n == 0)
    zero_test n = ground arith

-- The check of the index lets the one behind the last pass: on a well-formed list, reading there is
-- outside the array.
pub get_resource-overflow :
    (l : PeersList) → IsPeersList l → get_resource (pos l.max_peers) l ≡ none
unfolding get_resource check_index peer_at
get_resource-overflow l w =
    let passed : ltb l.max_peers l.max_peers ≡ false = ground arith in
    let outside : get_elem? l.peers l.max_peers ≡ none =
      get_elem?-outside l.peers l.max_peers (omega (arith, w.size)) in
    rw (passed, outside)
  where
    get_elem?-outside : {A : Type 0} (xs : List A) (i : ℕ) → length xs ≤ i → get_elem? xs i ≡ none
    get_elem?-outside [] i h = refl
    get_elem?-outside (x ∷ xs) zero h = absurd (omega arith)
    get_elem?-outside (x ∷ xs) (suc i) h = get_elem?-outside xs i (omega arith)

-- A dependency that was added to both lists, where neither held it, is found by
-- ipa_rm_peers_list_check_dependency, with the flag that it was added with.
pub check_dependency-add_peer :
    (producer consumer : ℕ) (peers owners : PeersList) (userspace_dep : Bool) (p q : Peer)
    → IsPeersList peers
    → IsPeersList owners
    → get_resource_index producer ≡ pos producer
    → get_resource_index consumer ≡ pos consumer
    → get_elem? peers.peers consumer ≡ some p
    → get_elem? owners.peers producer ≡ some q
    → p.resource ≡ none
    → q.resource ≡ none
    → (do
      peers' ← add_peer peers (some consumer) userspace_dep
      owners' ← add_peer owners (some producer) userspace_dep
      check_dependency peers' producer owners' consumer)
      ≡ some (true, some userspace_dep)
unfolding check_dependency
check_dependency-add_peer producer consumer peers owners u p q v w e f here there free free' =
    let (peers', a, _, at, _) = add_peer-IsPeersList peers v consumer f p here u free in
    let (owners', b, _, at', _) = add_peer-IsPeersList owners w producer e q there u free' in
    rw (a, b, e, f, at, at')

-- Each name of the enumeration, which leaves out 11 and 13, is its own index.
pub get_resource_index-named :
    (name : ℕ) → name < 22 → name ≢ 11 → name ≢ 13 → get_resource_index name ≡ pos name
unfolding get_resource_index is_prod is_cons ipa_rm_prod_index ipa_rm_cons_index
get_resource_index-named name h a b = ground arith
