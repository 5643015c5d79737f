-- ===== src/Rm/Clients.antt =====
-- ipa_rm.c: the functions of the interface on dependencies, requests, releases, clients and profiles.
use postmarketos_x00td_cellu.Common.{
  ℕ, Bool, true, false, not, ◌&&◌, Option, none, some, ◌∷◌, ◌==◌, if◌then◌else◌,
}
use postmarketos_x00td_cellu.Common.Fault.{◌>>=◌}
use postmarketos_x00td_cellu.Common.Int.{ℤ, pos, is_zero}
use postmarketos_x00td_cellu.Rm.{is_prod, is_cons}
use postmarketos_x00td_cellu.Rm.Heap.{
  RegisterParams, Drivers, einval, eperm, enomem, is_in_progress, base, cons_at,
}
use postmarketos_x00td_cellu.Rm.Consumer.{consumer_request, consumer_release}
use postmarketos_x00td_cellu.Rm.Producer.{
  producer_request, producer_release, producer_register, producer_deregister,
}
use postmarketos_x00td_cellu.Rm.Lifetime.{set_perf_profile}
use postmarketos_x00td_cellu.Rm.DepGraph.{
  graph_get_resource, graph_add_dependency, graph_delete_dependency,
}
use postmarketos_x00td_cellu.Rm.Manager.{
  DelayedRelease, Manager, etime, followed, guarded, on_resource,
}

module _ (d : Drivers) where
  unfoldable pub rm_add_dependency : ℕ → ℕ → Bool → Manager → Option (ℤ × Manager)
  unfolding followed guarded graph_add_dependency
  rm_add_dependency name depends_on_name userspace_dep s =
      guarded
        (λ s. do
          c ← followed s.ipa_rm_ctx
          (result, h) ← graph_add_dependency d c.dep_graph name depends_on_name userspace_dep s.heap
          some (result, record s { heap = h }))
        s

  -- `time` is what wait_for_completion_timeout returns; the consumer that is waited for is looked up
  -- without the lock and without a test of the result.
  unfoldable pub await_consumer : ℕ → ℕ → Manager → Option ℤ
  unfolding followed graph_get_resource
  await_consumer depends_on_name time s = do
    c ← followed s.ipa_rm_ctx
    (found, r) ← graph_get_resource c.dep_graph depends_on_name
    n ← r
    consumer ← cons_at s.heap n
    some (if time == 0 then etime else pos 0)

  unfoldable pub rm_add_dependency_sync : ℕ → ℕ → Bool → ℕ → Manager → Option (ℤ × Manager)
  unfolding rm_add_dependency await_consumer
  rm_add_dependency_sync name depends_on_name userspace_dep time s = do
    (result, s1) ← rm_add_dependency name depends_on_name userspace_dep s
    if not (is_in_progress result)
        then some (result, s1)
        else do waited ← await_consumer depends_on_name time s1; some (waited, s1)

  unfoldable pub rm_delete_dependency : ℕ → ℕ → Bool → Manager → Option (ℤ × Manager)
  unfolding followed guarded graph_delete_dependency
  rm_delete_dependency name depends_on_name userspace_dep s =
      guarded
        (λ s. do
          c ← followed s.ipa_rm_ctx
          (result, h) ←
              graph_delete_dependency d c.dep_graph name depends_on_name userspace_dep s.heap
          some (result, record s { heap = h }))
        s

  unfoldable pub rm_request_resource : ℕ → Manager → Option (ℤ × Manager)
  unfolding guarded on_resource is_prod producer_request
  rm_request_resource name s =
      guarded
        (λ s.
          if not (is_prod name)
          then some (einval, s)
          else on_resource eperm name (producer_request d) s)
        s

  unfoldable pub rm_release_resource : ℕ → Manager → Option (ℤ × Manager)
  unfolding guarded on_resource is_prod producer_release
  rm_release_resource name s =
      guarded
        (λ s.
          if not (is_prod name)
          then some (einval, s)
          else on_resource eperm name (producer_release d) s)
        s

  -- The request of a consumer by ipa_rm_request_resource_with_timer, and the release that is scheduled.
  unfoldable pub request_then_schedule : ℕ → Bool → Manager → Option (ℤ × Manager)
  unfolding consumer_request
  request_then_schedule n alloc_ok s = do
    (result, h) ← consumer_request d n 0 false true s.heap
    o ← h.object n
    let s1 = record s { heap = h }
    let later : DelayedRelease = record {
      resource_name = (base o).name;
      needed_bw = 0;
      dec_usage_count = false;
    }
    if not (is_zero result) && not (is_in_progress result)
        then some (eperm, s1)
        else if not alloc_ok
        then some (enomem, s1)
        else some (pos 0, record s1 { delayed = later ∷ s.delayed })

  unfoldable pub rm_request_resource_with_timer : ℕ → Bool → Manager → Option (ℤ × Manager)
  unfolding followed graph_get_resource is_cons request_then_schedule
  rm_request_resource_with_timer name alloc_ok s =
      if not (is_cons name) then some (einval, s) else do
        c ← followed s.ipa_rm_ctx
        (found, r) ← graph_get_resource c.dep_graph name
        elim r [ none ↦ some (eperm, s) | some n ↦ request_then_schedule n alloc_ok s ]

  -- The work of a scheduled release, which the caller has taken from the list.
  unfoldable pub delayed_release_work_func : DelayedRelease → Manager → Option Manager
  unfolding on_resource is_cons consumer_release
  delayed_release_work_func rwork s = if not (is_cons rwork.resource_name) then some s else do
    (result, s1) ←
        on_resource (pos 0) rwork.resource_name
          (λ n h. consumer_release d n rwork.needed_bw rwork.dec_usage_count h) s
    some s1

-- The functions on a producer's clients and on a profile, which call no driver.
unfoldable pub rm_register : ℕ → Option RegisterParams → Bool → Manager → Option (ℤ × Manager)
unfolding on_resource is_prod producer_register
rm_register name reg_params alloc_ok s =
    if not (is_prod name)
    then some (einval, s)
    else on_resource eperm name (λ n h. producer_register (some n) reg_params true alloc_ok h) s

unfoldable pub rm_deregister : ℕ → Option RegisterParams → Manager → Option (ℤ × Manager)
unfolding on_resource is_prod producer_deregister
rm_deregister name reg_params s =
    if not (is_prod name)
    then some (einval, s)
    else on_resource eperm name (λ n h. producer_deregister (some n) reg_params h) s

unfoldable pub rm_set_perf_profile : ℕ → Option ℕ → Manager → Option (ℤ × Manager)
unfolding guarded on_resource set_perf_profile
rm_set_perf_profile name profile s =
    guarded (on_resource eperm name (λ n h. set_perf_profile (some n) profile h)) s
