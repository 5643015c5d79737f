-- ===== src/Rm/Table.antt =====
-- The table of the dependency graph as a map from names to resources.
use postmarketos_x00td_cellu.Common.{
  ℕ, ◌<◌, ◌≡◌, ◌≢◌, refl, sym, ◌∙◌, ◌⊎◌, inl, inr, true, Option, none, some, length, get_elem?, set,
  length-set, get_elem?-set_self, get_elem?-set_ne, ltb, arith,
}
use postmarketos_x00td_cellu.Common.Fault.{◌>>=◌}
use postmarketos_x00td_cellu.Common.Int.{pos, negsuc}
use postmarketos_x00td_cellu.Rm.{is_prod, is_cons, ipa_rm_prod_index, ipa_rm_cons_index}
use postmarketos_x00td_cellu.Rm.DepGraph.{
  DepGraph, get_index, valid_index, graph_get_resource, set_entry, graph_add, graph_remove,
}
use postmarketos_x00td_cellu.Rm.Heap.{Heap, Object, einval, base}

-- Every name of the enumeration is its own index, and any other value has none.
pub get_index-cases :
    (name : ℕ) → ((get_index name ≡ pos name) × (name < 22)) ⊎ (get_index name ≡ negsuc 0)
unfolding get_index is_prod is_cons ipa_rm_prod_index ipa_rm_cons_index
get_index-cases name = ground arith

module _ (g : DepGraph) (size : length g.resource_table ≡ 22) where
  -- Reading at a name.
  get_resource_lem :
      (name : ℕ)
      → get_index name ≡ pos name
      → name < 22
      → graph_get_resource (some g) name ≡ (do
        r ← get_elem? g.resource_table name
        some (elim r [ none ↦ (einval, none) | some n ↦ (pos 0, some n) ]))
  unfolding graph_get_resource valid_index
  get_resource_lem name e b =
      let inside : ltb name 22 ≡ true = ground arith in
      rw (graph_get_resource, e, valid_index, inside) refl

  set_entry_lem :
      (i : ℕ) (r : Option ℕ)
      → i < 22
      → set_entry g i r ≡ some (record { resource_table = set g.resource_table i r })
  unfolding set_entry
  set_entry_lem i r b =
      let inside : ltb i (length g.resource_table) ≡ true = ground arith in rw inside refl

no_entry :
    (g : DepGraph) (name : ℕ)
    → get_index name ≡ negsuc 0
    → graph_get_resource (some g) name ≡ some (einval, none)
unfolding graph_get_resource valid_index
no_entry g name e = rw (graph_get_resource, e, valid_index) refl

-- A resource that was added is found at its name, every other name reads as before, and after the name
-- was removed, it has no resource. All of this returns, on a table of full size, for a resource whose
-- name is of the enumeration.
pub graph_add-remove :
    (g : DepGraph) (n : ℕ) (o : Object) (h : Heap)
    → length g.resource_table ≡ 22
    → h.object n ≡ some o
    → get_index (base o).name ≡ pos (base o).name
    → (base o).name < 22
    → (g1 : DepGraph) × (graph_add (some g) (some n) h ≡ some (pos 0, some g1))
      × (length g1.resource_table ≡ 22)
      × (graph_get_resource (some g1) (base o).name ≡ some (pos 0, some n))
      × ((other : ℕ)
          → (base o).name ≢ other
          → graph_get_resource (some g1) other ≡ graph_get_resource (some g) other)
      × (g2 : DepGraph) × (graph_remove (some g1) (base o).name ≡ some (pos 0, some g2))
      × (graph_get_resource (some g2) (base o).name ≡ some (einval, none))
unfolding graph_add valid_index graph_remove
graph_add-remove g n o h size e named b =
    let name = (base o).name in
    let inside : ltb name 22 ≡ true = ground arith in
    let g2 : DepGraph = record { resource_table = set g1.resource_table name none } in
    let size1 : length g1.resource_table ≡ 22 = length-set g.resource_table name (some n) ∙ size in
    let size2 : length g2.resource_table ≡ 22 = length-set g1.resource_table name none ∙ size1 in
    let at1 : get_elem? g1.resource_table name ≡ some (some n) =
      get_elem?-set_self g.resource_table name (some n) (omega (arith, size)) in
    let at2 : get_elem? g2.resource_table name ≡ some none =
      get_elem?-set_self g1.resource_table name none (omega (arith, size1)) in
    (
      g1,
      rw (e, ◌>>=◌, named, valid_index, inside, set_entry_lem g size name (some n) b) refl,
      size1,
      get_resource_lem g1 size1 name named b ∙ rw at1 refl,
      λ other apart. elsewhere other apart (get_index-cases other),
      g2,
      rw (set_entry_lem g1 size1 name none b) refl,
      get_resource_lem g2 size2 name named b ∙ rw at2 refl,
    )
  where
    g1 : DepGraph
    g1 = record { resource_table = set g.resource_table (base o).name (some n) }

    elsewhere :
        (other : ℕ)
        → (base o).name ≢ other
        → ((get_index other ≡ pos other) × (other < 22)) ⊎ (get_index other ≡ negsuc 0)
        → graph_get_resource (some g1) other ≡ graph_get_resource (some g) other
    elsewhere other apart (inl (x, y)) =
        get_resource_lem g1 (length-set g.resource_table (base o).name (some n) ∙ size) other x y
        ∙ rw (get_elem?-set_ne g.resource_table (base o).name other (some n) apart) refl
        ∙ sym (get_resource_lem g size other x y)
    elsewhere other apart (inr x) = no_entry g1 other x ∙ sym (no_entry g other x)
