-- ===== src/Rm/DepGraph.antt =====
-- ipa_rm_dependency_graph.c: the table of all resources by name. A NULL graph is `none`.
use postmarketos_x00td_cellu.Common.{
  ℕ, Bool, not, ◌||◌, Option, none, some, List, [], ◌∷◌, length, get_elem?, set, replicate, ltb,
  if◌then◌else◌,
}
use postmarketos_x00td_cellu.Common.Fault.{◌>>=◌}
use postmarketos_x00td_cellu.Common.Int.{ℤ, pos, negsuc}
use postmarketos_x00td_cellu.Rm.{
  is_prod, is_cons, ipa_rm_prod_index, ipa_rm_cons_index, ipa_rm_index_invalid, ipa_rm_resource_max,
}
use postmarketos_x00td_cellu.Rm.Dependency.{add_dependency, delete_dependency}
use postmarketos_x00td_cellu.Rm.Lifetime.{free}
use postmarketos_x00td_cellu.Rm.Heap.{Heap, Drivers, einval, enomem, base}

pub record DepGraph : Type 0 where
  pub resource_table : List (Option ℕ)

unfoldable pub get_index : ℕ → ℤ
get_index name =
    if is_prod name
    then ipa_rm_prod_index name
    else if is_cons name
    then ipa_rm_cons_index name
    else ipa_rm_index_invalid

-- `none` for an index that is -1 or too large.
unfoldable pub valid_index : ℤ → Option ℕ
valid_index (pos i) = if ltb i ipa_rm_resource_max then some i else none
valid_index (negsuc i) = none

unfoldable pub graph_create : Bool → ℤ × Option DepGraph
graph_create alloc_ok =
    if alloc_ok
    then (pos 0, some (record { resource_table = replicate ipa_rm_resource_max none }))
    else (enomem, none)

-- Every resource of the table is freed.
unfoldable pub free_all : List (Option ℕ) → Heap → Heap
free_all [] h = h
free_all (none ∷ rs) h = free_all rs h
free_all (some n ∷ rs) h = free_all rs (free n h)

unfoldable pub graph_delete : Option DepGraph → Heap → Option DepGraph × Heap
unfolding free_all
graph_delete none h = (none, h)
graph_delete (some g) h = (
  some (record { resource_table = replicate ipa_rm_resource_max none }),
  free_all g.resource_table h,
)

-- The result, and the resource in case of success; the outer `none` is an access outside the table.
unfoldable pub graph_get_resource : Option DepGraph → ℕ → Option (ℤ × Option ℕ)
unfolding get_index valid_index
graph_get_resource none name = some (einval, none)
graph_get_resource (some g) name = elim (valid_index (get_index name)) [
  | none ↦ some (einval, none)
  | some i ↦ do
    r ← get_elem? g.resource_table i
    some (elim r [ none ↦ (einval, none) | some n ↦ (pos 0, some n) ])
]

unfoldable pub set_entry : DepGraph → ℕ → Option ℕ → Option DepGraph
set_entry g i r =
    if ltb i (length g.resource_table)
    then some (record { resource_table = set g.resource_table i r })
    else none

unfoldable pub graph_add : Option DepGraph → Option ℕ → Heap → Option (ℤ × Option DepGraph)
unfolding get_index valid_index set_entry
graph_add (some g) (some n) h = do
  o ← h.object n
  elim (valid_index (get_index (base o).name)) [
    | none ↦ some (einval, some g)
    | some i ↦ do g1 ← set_entry g i (some n); some (pos 0, some g1)
  ]
graph_add g _ h = some (einval, g)

-- The name is the index, without a check.
unfoldable pub graph_remove : Option DepGraph → ℕ → Option (ℤ × Option DepGraph)
unfolding set_entry
graph_remove none name = some (einval, none)
graph_remove (some g) name = do g1 ← set_entry g name none; some (pos 0, some g1)

-- Both names' resources, or an error.
unfoldable pub graph_pair : Option DepGraph → ℕ → ℕ → Option (Option (ℕ × ℕ))
unfolding graph_get_resource is_prod is_cons
graph_pair none name depends_on_name = some none
graph_pair (some g) name depends_on_name =
    if not (is_prod name) || not (is_cons depends_on_name) then some none else do
      (result, n) ← graph_get_resource (some g) name
      elim n [
        | none ↦ some none
        | some n ↦ do
          (result1, m) ← graph_get_resource (some g) depends_on_name
          some (elim m [ none ↦ none | some m ↦ some (n, m) ])
      ]

module _ (d : Drivers) where
  unfoldable pub graph_add_dependency : Option DepGraph → ℕ → ℕ → Bool → Heap → Option (ℤ × Heap)
  unfolding graph_pair add_dependency
  graph_add_dependency g name depends_on_name userspace_dep h = do
    pair ← graph_pair g name depends_on_name
    elim pair [
      | none ↦ some (einval, h)
      | some (n, m) ↦ add_dependency d (some n) (some m) userspace_dep h
    ]

  unfoldable pub graph_delete_dependency : Option DepGraph → ℕ → ℕ → Bool → Heap → Option (ℤ × Heap)
  unfolding graph_pair delete_dependency
  graph_delete_dependency g name depends_on_name userspace_dep h = do
    pair ← graph_pair g name depends_on_name
    elim pair [
      | none ↦ some (einval, h)
      | some (n, m) ↦ delete_dependency d (some n) (some m) userspace_dep h
    ]
