-- ===== src/Rm/Added.antt =====
-- The steps of adding a dependency to the lists and of deleting it.
use postmarketos_x00td_cellu.Common.{
  ℕ, zero, suc, ◌<◌, ◌≡◌, refl, sym, ap, not, Bool, true, false, Option, some, List, [], ◌∷◌,
  length, get_elem?, set, length-set, get_elem?-set_self, ltb, arith, if◌then◌else◌,
}
use mathlib.Core.Option.{none-ne-some, some-injective}
use postmarketos_x00td_cellu.Common.Fault.{◌>>=◌}
use postmarketos_x00td_cellu.Common.Int.{ℤ, pos, negsuc}
use postmarketos_x00td_cellu.Rm.PeersList.{
  Peer, PeersList, no_peer, incr, decr, put_peer, get_resource_index, add_peer, remove_peer,
}
use postmarketos_x00td_cellu.Rm.Counted.{get_elem?-bound}
use postmarketos_x00td_cellu.Rm.Dependency.{change_base, same_side}
use postmarketos_x00td_cellu.Rm.Heap.{
  Resource, Object, Heap, put, base, with_base, add_u32, sub_u32,
}

pub chosen : {A : Type 0} {b : Bool} {x : A} (y : A) → b ≡ true → (if b then x else y) ≡ x
chosen y e = rw e refl

pub decr-incr : (u : ℤ) → decr (incr u) ≡ u
unfolding incr decr
decr-incr (pos k) = refl
decr-incr (negsuc zero) = refl
decr-incr (negsuc (suc k)) = refl

pub set-set :
    {A : Type 0} (xs : List A) (i : ℕ) (a b : A)
    → get_elem? xs i ≡ some b
    → set (set xs i a) i b ≡ xs
set-set [] i a b e = absurd (none-ne-some b e)
set-set (x ∷ xs) zero a b e = ap (λ y. y ∷ xs) (sym (some-injective x b e))
set-set (x ∷ xs) (suc i) a b e = ap (λ ys. x ∷ ys) (set-set xs i a b e)

pub sub-add : (a b : ℕ) → a < 4294967296 → b < 4294967296 → sub_u32 (add_u32 a b) b ≡ a
sub-add a b h k = omega arith

-- The list with a peer at a name that was free.
unfoldable pub added : PeersList → ℕ → Bool → PeersList
unfolding incr
added l name u = record l {
  peers = set l.peers name (record { resource = some name; userspace_dep = u });
  peers_count = incr l.peers_count;
}

module _ (l : PeersList) (name : ℕ) (u : Bool) (named : get_resource_index name ≡ pos name)
    (free : get_elem? l.peers name ≡ some no_peer) where
  pub add_peer_lem : add_peer l (some name) u ≡ some (added l name u)
  unfolding add_peer put_peer added
  add_peer_lem =
      let bound = get_elem?-bound l.peers name no_peer free in
      let inside : ltb name (length l.peers) ≡ true = ground arith in rw (named, inside) refl

  pub remove_peer-added : remove_peer (added l name u) name ≡ some l
  unfolding remove_peer put_peer incr decr added
  remove_peer-added =
      let bound = get_elem?-bound l.peers name no_peer free in
      let q : Peer = record { resource = some name; userspace_dep = u } in
      let inside : ltb name (length (set l.peers name q)) ≡ true =
        rw (length-set l.peers name q) (ground arith) in
      rw (named, inside, set-set l.peers name q no_peer free, decr-incr l.peers_count) refl

  pub added_there :
      get_elem? (added l name u).peers name
      ≡ some (record { resource = some name; userspace_dep = u })
  unfolding added
  added_there =
      get_elem?-set_self l.peers name (record { resource = some name; userspace_dep = u })
        (get_elem?-bound l.peers name no_peer free)

pub change_base_lem :
    (n : ℕ) (f : Resource → Option Resource) (h : Heap) (o : Object) (r : Resource)
    → h.object n ≡ some o
    → f (base o) ≡ some r
    → change_base n f h ≡ some (put n (with_base o r) h)
unfolding change_base
change_base_lem n f h o r e x = rw (e, ◌>>=◌, x) refl

pub same_side_refl : (u : Bool) → same_side u u ≡ true
unfolding same_side
same_side_refl true = refl
same_side_refl false = refl

pub same_side-not : (u : Bool) → same_side u (not u) ≡ false
unfolding same_side
same_side-not true = refl
same_side-not false = refl
