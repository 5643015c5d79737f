-- ===== src/Rm/Manager.antt =====
-- ipa_rm.c: the interface of the resource manager. Every function holds the one lock while it works, so
-- that it is one step; the pointer ipa_rm_ctx is NULL, points to freed memory, or to the context.
use postmarketos_x00td_cellu.Common.{ℕ, Bool, not, Option, none, some, List, ltb, if◌then◌else◌}
use postmarketos_x00td_cellu.Common.Fault.{◌>>=◌}
use postmarketos_x00td_cellu.Common.Int.{ℤ, pos, negsuc, is_zero}
use postmarketos_x00td_cellu.Rm.Heap.{Heap, Drivers, einval, eexist, enomem}
use postmarketos_x00td_cellu.Rm.Lifetime.{
  CreateParams, Allocations, resource_create, resource_delete,
}
use postmarketos_x00td_cellu.Rm.DepGraph.{
  DepGraph, graph_create, graph_delete, graph_get_resource, graph_add, graph_remove,
}

pub record RmContext : Type 0 where
  pub dep_graph : Option DepGraph

pub data ContextPointer : Type 0 where
  no_context : ContextPointer
  freed_context : ContextPointer
  context : RmContext → ContextPointer

pub record DelayedRelease : Type 0 where
  pub resource_name : ℕ
  pub needed_bw : ℕ
  pub dec_usage_count : Bool

-- `delayed` holds the scheduled releases, the last one first.
pub record Manager : Type 0 where
  pub ipa_rm_ctx : ContextPointer
  pub heap : Heap
  pub delayed : List DelayedRelease

abbrev pub etime : ℤ
etime = negsuc 61

-- IPA_VOLTAGE_MAX
abbrev pub ipa_voltage_max : ℕ
ipa_voltage_max = 4

-- The context; a NULL pointer and one to freed memory are not followed.
unfoldable pub followed : ContextPointer → Option RmContext
followed (context c) = some c
followed _ = none

-- A function with the test of ipa_rm_ctx for NULL, which freed memory passes.
unfoldable pub guarded : (Manager → Option (ℤ × Manager)) → Manager → Option (ℤ × Manager)
guarded f s = elim s.ipa_rm_ctx [
  | no_context ↦ some (einval, s)
  | freed_context ↦ f s
  | context c ↦ f s
]

-- A step on the resource of a name, or an error if there is none.
unfoldable pub on_resource : ℤ → ℕ → (ℕ → Heap → Option (ℤ × Heap)) → Manager → Option (ℤ × Manager)
unfolding followed graph_get_resource
on_resource missing name f s = do
  c ← followed s.ipa_rm_ctx
  (found, r) ← graph_get_resource c.dep_graph name
  elim r [
    | none ↦ some (missing, s)
    | some n ↦ do (result, h) ← f n s.heap; some (result, record s { heap = h })
  ]

abbrev pub with_graph : Option DepGraph → Heap → Manager → Manager
with_graph g h s = record s { ipa_rm_ctx = context (record { dep_graph = g }); heap = h }

module _ (d : Drivers) where
  -- The resource is new.
  unfoldable pub create_locked :
      CreateParams → Allocations → RmContext → Manager → Option (ℤ × Manager)
  unfolding resource_create graph_add resource_delete
  create_locked params allocs c s = do
    (result, h) ← resource_create d (some params) allocs s.heap
    if not (is_zero result) then some (result, record s { heap = h }) else do
      (added, g) ← graph_add c.dep_graph (some params.name) h
      if is_zero added then some (added, with_graph g h s) else do
        (deleted, h1) ← resource_delete d (some params.name) h
        some (added, with_graph g h1 s)

  unfoldable pub rm_create_resource :
      Option CreateParams → Allocations → Manager → Option (ℤ × Manager)
  unfolding followed guarded graph_get_resource create_locked
  rm_create_resource none allocs s = guarded (λ s. some (einval, s)) s
  rm_create_resource (some params) allocs s =
      guarded
        (λ s. if not (ltb params.floor_voltage ipa_voltage_max) then some (einval, s) else do
          c ← followed s.ipa_rm_ctx
          (found, r) ← graph_get_resource c.dep_graph params.name
          if is_zero found then some (eexist, s) else create_locked params allocs c s)
        s

  unfoldable pub delete_locked : ℕ → ℕ → RmContext → Manager → Option (ℤ × Manager)
  unfolding resource_delete graph_remove
  delete_locked name n c s = do
    (result, h) ← resource_delete d (some n) s.heap
    if not (is_zero result)
        then some (result, record s { heap = h })
        else do (removed, g) ← graph_remove c.dep_graph name; some (removed, with_graph g h s)

  unfoldable pub rm_delete_resource : ℕ → Manager → Option (ℤ × Manager)
  unfolding followed guarded graph_get_resource delete_locked
  rm_delete_resource name s =
      guarded
        (λ s. do
          c ← followed s.ipa_rm_ctx
          (found, r) ← graph_get_resource c.dep_graph name
          elim r [ none ↦ some (einval, s) | some n ↦ delete_locked name n c s ])
        s

-- Whether each allocation succeeds is an argument. A failure after the first frees the context and
-- leaves the pointer.
unfoldable pub rm_initialize : Bool → Bool → Bool → Manager → ℤ × Manager
unfolding graph_create
rm_initialize ctx_ok wq_ok graph_ok s =
    if not ctx_ok
    then (enomem, record s { ipa_rm_ctx = no_context })
    else if not wq_ok
    then (enomem, record s { ipa_rm_ctx = freed_context })
    else let (result, g) = graph_create graph_ok in
      if is_zero result
      then (pos 0, with_graph g s.heap s)
      else (result, record s { ipa_rm_ctx = freed_context })

unfoldable pub rm_exit : Manager → Option Manager
unfolding followed graph_delete
rm_exit s = do
  c ← followed s.ipa_rm_ctx
  let (g, h) = graph_delete c.dep_graph s.heap
  some (record s { ipa_rm_ctx = no_context; heap = h })
