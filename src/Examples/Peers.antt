-- ===== src/Examples/Peers.antt =====
-- Peers lists of the resource manager, as it creates them for 22 names.
use postmarketos_x00td_cellu.Common.{ℕ, ◌≡◌, ◌≢◌, refl, true, none, some, replicate, arith, ◌∷◌}
use postmarketos_x00td_cellu.Common.Int.{pos}
use postmarketos_x00td_cellu.Rm.PeersList.{
  Peer, PeersList, no_peer, add_peer, peer_at, get_resource,
}
use postmarketos_x00td_cellu.Rm.Counted.{
  IsPeersList, add_peer-IsPeersList, get_resource-overflow, get_resource_index-named,
}

abbrev fresh : PeersList
fresh = record { peers = replicate 22 no_peer; max_peers = 22; peers_count = pos 0 }

fresh-IsPeersList : IsPeersList fresh
fresh-IsPeersList = record { size = refl; counted = refl }

-- USB_PROD holds its peer in this one.
abbrev usb : Peer
usb = record { resource = some 2; userspace_dep = true }

abbrev one : PeersList
one = record {
  peers = no_peer ∷ no_peer ∷ usb ∷ replicate 19 no_peer;
  max_peers = 22;
  peers_count = pos 1;
}

one-IsPeersList : IsPeersList one
one-IsPeersList = record { size = refl; counted = refl }

add_peer-IsPeersList_example :
    (l' : PeersList) × (add_peer fresh (some 2) true ≡ some l')
    × IsPeersList l'
    × (peer_at l'.peers (pos 2) ≡ some (record { resource = some 2; userspace_dep = true }))
    × ((j : ℕ) → 2 ≢ j → peer_at l'.peers (pos j) ≡ peer_at fresh.peers (pos j))
add_peer-IsPeersList_example =
    add_peer-IsPeersList fresh fresh-IsPeersList 2
      (get_resource_index-named 2 (omega arith) (omega arith) (omega arith)) no_peer refl true refl

get_resource-overflow_example : get_resource (pos 22) fresh ≡ none
get_resource-overflow_example = get_resource-overflow fresh fresh-IsPeersList
