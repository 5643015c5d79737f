-- ===== src/Examples/Dependencies.antt =====
-- Dependencies and the table of resources, with lists of the size that they are created with.
use postmarketos_x00td_cellu.Common.{
  ℕ, zero, suc, ◌≡◌, ◌≢◌, refl, Bool, true, false, Option, none, some, [], ◌∷◌, length, replicate,
  arith,
}
use postmarketos_x00td_cellu.Common.Int.{pos}
use postmarketos_x00td_cellu.Rm.{is_prod, ipa_rm_prod_index}
use postmarketos_x00td_cellu.Rm.PeersList.{PeersList, no_peer}
use postmarketos_x00td_cellu.Rm.Counted.{get_resource_index-named}
use postmarketos_x00td_cellu.Rm.Dependency.{add_dependency, delete_dependency}
use postmarketos_x00td_cellu.Rm.Dependent.{Strangers, add_dependency-delete_dependency}
use postmarketos_x00td_cellu.Rm.DepGraph.{
  DepGraph, get_index, graph_add, graph_get_resource, graph_remove,
}
use postmarketos_x00td_cellu.Rm.Table.{graph_add-remove}
use postmarketos_x00td_cellu.Rm.Heap.{
  ResourceState, released, granted, Resource, Cons, Prod, Object, producer, consumer, Heap, Drivers,
  eexist, einval,
}

abbrev fresh : PeersList
fresh = record { peers = replicate 22 no_peer; max_peers = 22; peers_count = pos 0 }

abbrev resource : ℕ → ResourceState → Resource
resource n s = record {
  name = n;
  floor_voltage = 0;
  max_bw = 10;
  needed_bw = 20;
  state = s;
  peers_list = some fresh;
}

abbrev the_producer : Prod
the_producer = record {
  resource = resource 2 released;
  event_listeners = [];
  pending_request = 0;
  pending_release = 0;
}

abbrev the_consumer : Cons
the_consumer = record { resource = resource 1 granted; usage_count = pos 1; completed = false }

abbrev objects : ℕ → Option Object
objects (suc zero) = some (consumer the_consumer)
objects (suc (suc zero)) = some (producer the_producer)
objects _ = none

abbrev heap : Heap
heap = record { object = objects; calls = [] }

abbrev drivers : Drivers
drivers = record {
  request_answer = λ cs n. pos 0;
  release_answer = λ cs n. pos 0;
  enable_clks_answer = λ cs n. pos 0;
  suspend_answer = λ cs n. pos 0;
}

strangers : Strangers 2 1 the_producer the_consumer fresh fresh heap
strangers = record {
  at_producer = refl;
  at_consumer = refl;
  is_released = refl;
  producer_list = refl;
  consumer_list = refl;
  producer_named = get_resource_index-named 2 (omega arith) (omega arith) (omega arith);
  consumer_named = get_resource_index-named 1 (omega arith) (omega arith) (omega arith);
  producer_free = refl;
  consumer_free = refl;
  producer_bw = omega arith;
  consumer_bw = omega arith;
}

add_dependency-delete_dependency_example :
    (h1 : Heap) × (add_dependency drivers (some 2) (some 1) true heap ≡ some (pos 0, h1))
    × ((v : Bool) → add_dependency drivers (some 2) (some 1) v h1 ≡ some (eexist, h1))
    × (delete_dependency drivers (some 2) (some 1) false h1 ≡ some (pos 0, h1))
    × (h2 : Heap) × (delete_dependency drivers (some 2) (some 1) true h1 ≡ some (pos 0, h2))
    × ((j : ℕ) → h2.object j ≡ heap.object j)
add_dependency-delete_dependency_example =
    add_dependency-delete_dependency drivers 2 1 the_producer the_consumer fresh fresh heap true
      strangers

abbrev graph : DepGraph
graph = record { resource_table = none ∷ some 1 ∷ replicate 20 none }

named_2 : get_index 2 ≡ pos 2
unfolding get_index is_prod ipa_rm_prod_index
named_2 = refl

graph_add-remove_example :
    (g1 : DepGraph) × (graph_add (some graph) (some 2) heap ≡ some (pos 0, some g1))
    × (length g1.resource_table ≡ 22)
    × (graph_get_resource (some g1) 2 ≡ some (pos 0, some 2))
    × ((other : ℕ)
        → 2 ≢ other
        → graph_get_resource (some g1) other ≡ graph_get_resource (some graph) other)
    × (g2 : DepGraph) × (graph_remove (some g1) 2 ≡ some (pos 0, some g2))
    × (graph_get_resource (some g2) 2 ≡ some (einval, none))
graph_add-remove_example =
    graph_add-remove graph 2 (producer the_producer) heap refl refl named_2 (omega arith)
