-- ===== src/Rm/Lifetime.antt =====
-- ipa_rm_resource.c: a resource is created, deleted, and given a performance profile. Whether an
-- allocation succeeds is an argument; a resource that was freed is no longer in the heap.
use postmarketos_x00td_cellu.Common.{
  ℕ, zero, suc, ◌+◌, Bool, true, false, not, Option, none, some, [], ◌==◌, if◌then◌else◌,
}
use postmarketos_x00td_cellu.Common.Fault.{◌>>=◌}
use postmarketos_x00td_cellu.Common.Int.{ℤ, pos, is_zero}
use postmarketos_x00td_cellu.Rm.{is_prod, is_cons, ipa_rm_resource_max}
use postmarketos_x00td_cellu.Rm.PeersList.{PeersList, create, get_size, get_userspace_dep}
use postmarketos_x00td_cellu.Rm.Producer.{producer_register, producer_release}
use postmarketos_x00td_cellu.Rm.Dependency.{delete_dependency}
use postmarketos_x00td_cellu.Rm.Heap.{
  released, request_in_progress, granted, RegisterParams, Resource, Cons, Prod, Object, producer,
  consumer, Heap, Drivers, perf_profile_change, eperm, einval, enomem, add_u32, sub_u32, call, put,
  base, with_base, prod_at, peer_of, size_of,
}

pub record CreateParams : Type 0 where
  pub name : ℕ
  pub floor_voltage : ℕ
  pub reg_params : RegisterParams

pub record Allocations : Type 0 where
  pub object_ok : Bool
  pub info_ok : Bool
  pub list_ok : Bool
  pub peers_ok : Bool

-- What kzalloc leaves, at the name that the resource is going to have.
abbrev pub no_resource : Resource
no_resource = record {
  name = 0;
  floor_voltage = 0;
  max_bw = 0;
  needed_bw = 0;
  state = released;
  peers_list = none;
}

abbrev pub new_prod : Prod
new_prod = record {
  resource = no_resource;
  event_listeners = [];
  pending_request = 0;
  pending_release = 0;
}

abbrev pub new_cons : Cons
new_cons = record { resource = no_resource; usage_count = pos 0; completed = false }

abbrev pub free : ℕ → Heap → Heap
free n h = record h { object = λ m. if n == m then none else h.object m }

-- The new producer stands in the heap before its client is registered, and is freed if that fails.
unfoldable pub producer_create : CreateParams → Allocations → Heap → Option (ℤ × Heap)
unfolding producer_register
producer_create params allocs h = if not allocs.object_ok then some (enomem, h) else do
  let n = params.name
  (result, h1) ←
      producer_register (some n) (some params.reg_params) false allocs.info_ok
        (put n (producer new_prod) h)
  some (if is_zero result then (result, h1) else (result, free n h1))

unfoldable pub consumer_create : CreateParams → Allocations → Heap → Option (ℤ × Heap)
consumer_create params allocs h =
    if not allocs.object_ok
    then some (enomem, h)
    else some (pos 0, put params.name (consumer new_cons) h)

-- The consumer or producer of a dependency that a resource's list names at an index.
unfoldable pub dep_of : Resource → ℕ → Option Bool
unfolding get_userspace_dep
dep_of r i = do l ← r.peers_list; get_userspace_dep (pos i) l

module _ (d : Drivers) where
  unfoldable pub delete_one : ℕ → Object → ℕ → Bool → Heap → Option (ℤ × Heap)
  unfolding delete_dependency
  delete_one n (producer _) m dep h = delete_dependency d (some n) (some m) dep h
  delete_one n (consumer _) m dep h = delete_dependency d (some m) (some n) dep h

  -- `k` rounds from index `i` on, for both types of resource.
  unfoldable pub delete_peers : ℕ → ℕ → ℕ → Heap → Option Heap
  delete_peers n zero i h = some h
  delete_peers n (suc k) i h = do
    o ← h.object n
    m ← peer_of (base o) i
    h1 ← elim m [
      | none ↦ some h
      | some m ↦ do dep ← dep_of (base o) i; (result, h2) ← delete_one n o m dep h; some h2
    ]
    delete_peers n k (i + 1) h1

  -- ipa_rm_resource_producer_delete
  unfoldable pub producer_delete : ℕ → Heap → Option Heap
  unfolding producer_release
  producer_delete n h = do
    (result, h1) ← producer_release d n h
    p ← prod_at h1 n
    some (put n (producer (record p { event_listeners = [] })) h1)

  unfoldable pub delete_lists : Resource → ℕ → Heap → Option Heap
  unfolding delete_peers
  delete_lists r n h = elim r.peers_list [
    | none ↦ some h
    | some l ↦ delete_peers n (get_size l) 0 h
  ]

  unfoldable pub resource_delete : Option ℕ → Heap → Option (ℤ × Heap)
  unfolding producer_delete
  resource_delete none h = some (einval, h)
  resource_delete (some n) h = do
    o ← h.object n
    h1 ← delete_lists (base o) n h
    h2 ← elim o [ producer _ ↦ producer_delete n h1 | consumer _ ↦ some h1 ]
    some (pos 0, free n h2)

  unfoldable pub create_object : CreateParams → Allocations → Heap → Option (ℤ × Heap)
  unfolding producer_create consumer_create is_prod is_cons
  create_object params allocs h =
      if is_prod params.name
      then producer_create params allocs h
      else if is_cons params.name
      then consumer_create params allocs h
      else some (eperm, h)

  unfoldable pub name_resource : CreateParams → PeersList → Heap → Option (ℤ × Heap)
  name_resource params l h = do
    o ← h.object params.name
    let r = record (base o) {
      name = params.name;
      floor_voltage = params.floor_voltage;
      state = released;
      peers_list = some l;
    }
    some (pos 0, put params.name (with_base o r) h)

  unfoldable pub resource_create : Option CreateParams → Allocations → Heap → Option (ℤ × Heap)
  unfolding create resource_delete name_resource
  resource_create none allocs h = some (einval, h)
  resource_create (some params) allocs h = do
    (result, h1) ← create_object params allocs h
    if not (is_zero result)
        then some (result, h1)
        else elim (create ipa_rm_resource_max allocs.list_ok allocs.peers_ok) [
          | some l ↦ name_resource params l h1
          | none ↦ do (deleted, h2) ← resource_delete (some params.name) h1; some (enomem, h2)
        ]

-- A change of the bandwidth that a peer needs.
abbrev pub move_bw : ℕ → ℕ → ℕ → Heap → Option Heap
move_bw m old_bw new_bw h = do
  o ← h.object m
  let r = base o
  let r1 = record r { needed_bw = add_u32 (sub_u32 r.needed_bw old_bw) new_bw }
  let h1 = put m (with_base o r1) h
  some (elim r.state [ granted ↦ call (perf_profile_change r.name) h1 | _ ↦ h1 ])

unfoldable pub move_peers : ℕ → ℕ → ℕ → ℕ → ℕ → Heap → Option Heap
move_peers n old_bw new_bw zero i h = some h
move_peers n old_bw new_bw (suc k) i h = do
  o ← h.object n
  m ← peer_of (base o) i
  h1 ← elim m [ none ↦ some h | some m ↦ move_bw m old_bw new_bw h ]
  move_peers n old_bw new_bw k (i + 1) h1

-- Whether the peers' bandwidth follows the profile.
abbrev pub weighs : Object → Bool
weighs (consumer c) = true
weighs (producer p) = elim p.resource.state [
  | granted ↦ true
  | request_in_progress ↦ true
  | _ ↦ false
]

unfoldable pub set_perf_profile : Option ℕ → Option ℕ → Heap → Option (ℤ × Heap)
unfolding move_peers
set_perf_profile (some n) (some bw) h = do
  o ← h.object n
  let r = base o
  if bw == r.max_bw then some (pos 0, h) else do
    size ← if weighs o then size_of r else some 0
    h1 ← move_peers n r.max_bw bw size 0 h
    o1 ← h1.object n
    let h2 = put n (with_base o1 (record (base o1) { max_bw = bw })) h1
    some (pos 0, elim (base o1).state [ granted ↦ call (perf_profile_change r.name) h2 | _ ↦ h2 ])
set_perf_profile _ _ h = some (einval, h)
