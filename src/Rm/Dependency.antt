-- ===== src/Rm/Dependency.antt =====
-- ipa_rm_resource.c: a dependency of one resource on another is added and deleted.
use postmarketos_x00td_cellu.Common.{
  ℕ, ◌+◌, ◌-◌, Bool, true, false, not, ◌&&◌, Option, none, some, ltb, ◌==◌, if◌then◌else◌,
}
use postmarketos_x00td_cellu.Common.Fault.{◌>>=◌}
use postmarketos_x00td_cellu.Common.Int.{ℤ, pos}
use postmarketos_x00td_cellu.Rm.PeersList.{PeersList, add_peer, remove_peer, check_dependency}
use postmarketos_x00td_cellu.Rm.Consumer.{consumer_request, consumer_release}
use postmarketos_x00td_cellu.Rm.Heap.{
  ResourceState, released, request_in_progress, granted, release_in_progress, RmEvent,
  resource_granted, resource_released, Resource, producer, Heap, Drivers, perf_profile_change,
  send_notify_prod, einval, eexist, is_leaving, is_coming, is_in_progress, add_u32, sub_u32, call,
  put, base, with_base, prod_at, prod_state,
}

-- Whether the two lists hold the dependency, and by whom it was added. A NULL list holds none.
unfoldable pub dependency_of : Resource → Resource → Option (Bool × Option Bool)
unfolding check_dependency
dependency_of r s = elim r.peers_list [
  | none ↦ some (false, none)
  | some l ↦ elim s.peers_list [
    | none ↦ some (false, none)
    | some m ↦ check_dependency l r.name m s.name
  ]
]

unfoldable pub change_base : ℕ → (Resource → Option Resource) → Heap → Option Heap
change_base n f h = do o ← h.object n; r ← f (base o); some (put n (with_base o r) h)

-- A change of a resource's list, where it has one.
abbrev pub change_list : (PeersList → Option PeersList) → Resource → Option Resource
change_list f r = elim r.peers_list [
  | none ↦ some r
  | some l ↦ do l1 ← f l; some (record r { peers_list = some l1 })
]

unfoldable pub with_peer : ℕ → Bool → Resource → Option Resource
unfolding add_peer
with_peer m userspace_dep r = change_list (λ l. add_peer l (some m) userspace_dep) r

unfoldable pub without_peer : ℕ → Resource → Option Resource
unfolding remove_peer
without_peer m r = change_list (λ l. remove_peer l m) r

-- Whether the dependency was added by the side that deletes it.
unfoldable pub same_side : Bool → Bool → Bool
same_side true userspace_dep = userspace_dep
same_side false userspace_dep = not userspace_dep

module _ (d : Drivers) where
  -- The case of the switch for a producer that is granted or requested.
  unfoldable pub join_consumer : ℕ → ℕ → Heap → Option (ℤ × Heap)
  unfolding consumer_request
  join_consumer n m h = do
    p ← prod_at h n
    let prev_state = p.resource.state
    let q = record (prod_state p request_in_progress) { pending_request = p.pending_request + 1 }
    (consumer_result, h1) ← consumer_request d m p.resource.max_bw true false (put n (producer q) h)
    if is_in_progress consumer_result then some (consumer_result, h1) else do
      p1 ← prod_at h1 n
      let q1 = record (prod_state p1 prev_state) { pending_request = p1.pending_request - 1 }
      some (consumer_result, call (perf_profile_change p1.resource.name) (put n (producer q1) h1))

  unfoldable pub join_turn : ResourceState → ℕ → ℕ → Heap → Option (ℤ × Heap)
  unfolding join_consumer
  join_turn released n m h = some (pos 0, h)
  join_turn release_in_progress n m h = some (pos 0, h)
  join_turn granted n m h = join_consumer n m h
  join_turn request_in_progress n m h = join_consumer n m h

  -- The dependency is new.
  unfoldable pub join_resources : ℕ → ℕ → Resource → Resource → Bool → Heap → Option (ℤ × Heap)
  unfolding change_base with_peer join_turn
  join_resources n m r s userspace_dep h = do
    h1 ← change_base n (with_peer s.name userspace_dep) h
    h2 ← change_base m (with_peer r.name userspace_dep) h1
    h3 ← change_base n (λ r1. some (record r1 { needed_bw = add_u32 r1.needed_bw s.max_bw })) h2
    join_turn r.state n m h3

  unfoldable pub add_dependency : Option ℕ → Option ℕ → Bool → Heap → Option (ℤ × Heap)
  unfolding dependency_of join_resources
  add_dependency (some n) (some m) userspace_dep h = do
    o ← h.object n
    u ← h.object m
    (found, by) ← dependency_of (base o) (base u)
    if found then some (eexist, h) else join_resources n m (base o) (base u) userspace_dep h
  add_dependency _ _ userspace_dep h = some (einval, h)

  -- What the switch of the deletion decides: whether the consumer is released, and the event to
  -- send, if the state changed.
  unfoldable pub leave_turn :
      ResourceState → ℕ → ResourceState → Heap → Option (Bool × Option RmEvent × Heap)
  leave_turn released n dep_state h = some (false, none, h)
  leave_turn granted n dep_state h = do
    p ← h.object n
    some (true, none, call (perf_profile_change (base p).name) h)
  leave_turn release_in_progress n dep_state h = do
    p ← prod_at h n
    let pending = if ltb 0 p.pending_release then p.pending_release - 1 else p.pending_release
    let q = record p { pending_release = pending }
    let leaving = is_leaving dep_state
    let changed =
        call (perf_profile_change p.resource.name) (put n (producer (prod_state q released)) h)
    if leaving && (pending == 0)
        then some (false, some resource_released, changed)
        else some (false, none, put n (producer q) h)
  leave_turn request_in_progress n dep_state h = do
    p ← prod_at h n
    let pending = if ltb 0 p.pending_request then p.pending_request - 1 else p.pending_request
    let q = record p { pending_request = pending }
    let coming = is_coming dep_state
    let changed =
        call (perf_profile_change p.resource.name) (put n (producer (prod_state q granted)) h)
    if coming && (pending == 0)
        then some (true, some resource_granted, changed)
        else some (true, none, put n (producer q) h)

  abbrev pub notify_change : ℕ → Option RmEvent → Heap → Heap
  notify_change name none h = h
  notify_change name (some event) h = call (send_notify_prod name event false) h

  -- The dependency exists and was added by the same side.
  unfoldable pub leave_consumer : ℕ → ℕ → Resource → Resource → Heap → Option (ℤ × Heap)
  unfolding leave_turn consumer_release change_base without_peer
  leave_consumer n m r s h = do
    h1 ← change_base n (λ r1. some (record r1 { needed_bw = sub_u32 r1.needed_bw s.max_bw })) h
    (release_consumer, event, h2) ← leave_turn r.state n s.state h1
    h3 ← change_base n (without_peer s.name) (notify_change r.name event h2)
    h4 ← change_base m (without_peer r.name) h3
    if release_consumer
        then (do
          o ← h4.object n
          (result, h5) ← consumer_release d m (base o).max_bw true h4
          some (pos 0, h5))
        else some (pos 0, h4)

  unfoldable pub delete_dependency : Option ℕ → Option ℕ → Bool → Heap → Option (ℤ × Heap)
  unfolding dependency_of leave_consumer same_side
  delete_dependency (some n) (some m) userspace_dep h = do
    o ← h.object n
    u ← h.object m
    (found, by) ← dependency_of (base o) (base u)
    if not found then some (einval, h) else do
      added_by ← by
      if same_side added_by userspace_dep
          then leave_consumer n m (base o) (base u) h
          else some (pos 0, h)
  delete_dependency _ _ userspace_dep h = some (einval, h)
