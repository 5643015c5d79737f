-- ===== src/Rm/PeersList.antt =====
-- ipa_rm_peers_list.c: an array of peers, indexed by the name of the resource, and their count. A
-- pointer to a resource stands as its name; a NULL pointer is `none`. Numbers of peers are not
-- negative.
use postmarketos_x00td_cellu.Common.{
  ℕ, zero, suc, Bool, true, false, not, ◌&&◌, Option, none, some, List, length, get_elem?, set,
  replicate, ltb, ◌==◌, if◌then◌else◌,
}
use postmarketos_x00td_cellu.Common.Fault.{◌>>=◌}
use postmarketos_x00td_cellu.Common.Int.{ℤ, pos, negsuc}
use postmarketos_x00td_cellu.Rm.{
  is_prod, is_cons, ipa_rm_prod_index, ipa_rm_cons_index, ipa_rm_index_invalid,
}

pub record Peer : Type 0 where
  pub resource : Option ℕ
  pub userspace_dep : Bool

pub record PeersList : Type 0 where
  pub peers : List Peer
  pub max_peers : ℕ
  pub peers_count : ℤ

-- What kzalloc leaves.
abbrev pub no_peer : Peer
no_peer = record { resource = none; userspace_dep = false }

unfoldable pub incr : ℤ → ℤ
incr (pos n) = pos (suc n)
incr (negsuc zero) = pos 0
incr (negsuc (suc n)) = negsuc n

unfoldable pub decr : ℤ → ℤ
decr (pos zero) = negsuc 0
decr (pos (suc n)) = pos n
decr (negsuc n) = negsuc (suc n)

unfoldable pub get_resource_index : ℕ → ℤ
get_resource_index name =
    if is_prod name
    then ipa_rm_prod_index name
    else if is_cons name
    then ipa_rm_cons_index name
    else ipa_rm_index_invalid

-- An access to the array; an index of -1 is outside it.
unfoldable pub peer_at : List Peer → ℤ → Option Peer
peer_at peers (pos i) = get_elem? peers i
peer_at peers (negsuc i) = none

unfoldable pub put_peer : List Peer → ℤ → Peer → Option (List Peer)
put_peer peers (pos i) p = if ltb i (length peers) then some (set peers i p) else none
put_peer peers (negsuc i) p = none

-- !(index > max_peers || index < 0)
unfoldable pub check_index : ℤ → PeersList → Bool
check_index (pos i) l = not (ltb l.max_peers i)
check_index (negsuc i) l = false

-- Where both allocations succeed; otherwise -ENOMEM, and there is no list.
unfoldable pub create : ℕ → Bool → Bool → Option PeersList
create max_peers list_ok peers_ok =
    if list_ok && peers_ok
    then some
        (record { peers = replicate max_peers no_peer; max_peers = max_peers; peers_count = pos 0 })
    else none

unfoldable pub remove_peer : PeersList → ℕ → Option PeersList
unfolding put_peer decr get_resource_index
remove_peer l name = do
  peers ← put_peer l.peers (get_resource_index name) no_peer
  some (record l { peers = peers; peers_count = decr l.peers_count })

-- A missing resource changes nothing.
unfoldable pub add_peer : PeersList → Option ℕ → Bool → Option PeersList
unfolding put_peer incr get_resource_index
add_peer l none userspace_dep = some l
add_peer l (some name) userspace_dep = do
  peers ←
      put_peer l.peers (get_resource_index name)
        (record { resource = some name; userspace_dep = userspace_dep })
  some (record l { peers = peers; peers_count = incr l.peers_count })

-- peers_count > 0
unfoldable pub positive : ℤ → Bool
positive (pos n) = ltb 0 n
positive (negsuc n) = false

unfoldable pub is_empty : PeersList → Bool
unfolding positive
is_empty l = not (positive l.peers_count)

unfoldable pub is_one : ℤ → Bool
is_one (pos n) = n == 1
is_one (negsuc n) = false

unfoldable pub has_last_peer : PeersList → Bool
unfolding is_one
has_last_peer l = is_one l.peers_count

-- The result, and what `*userspace_dep` is set to, if it is.
unfoldable pub check_dependency : PeersList → ℕ → PeersList → ℕ → Option (Bool × Option Bool)
unfolding peer_at get_resource_index
check_dependency resource_peers resource_name depends_on_peers depends_on_name = do
  p ← peer_at resource_peers.peers (get_resource_index depends_on_name)
  q ← peer_at depends_on_peers.peers (get_resource_index resource_name)
  some (elim q.resource [
    | some _ ↦ (true, some q.userspace_dep)
    | none ↦ elim p.resource [ some _ ↦ (true, some p.userspace_dep) | none ↦ (false, none) ]
  ])

-- The outer `none` is an access outside the array.
unfoldable pub get_resource : ℤ → PeersList → Option (Option ℕ)
unfolding peer_at check_index
get_resource index l =
    if not (check_index index l) then some none else do p ← peer_at l.peers index; some p.resource

unfoldable pub get_userspace_dep : ℤ → PeersList → Option Bool
unfolding peer_at check_index
get_userspace_dep index l =
    if not (check_index index l)
    then some false
    else do p ← peer_at l.peers index; some p.userspace_dep

unfoldable pub get_size : PeersList → ℕ
get_size l = l.max_peers
