-- ===== src/Examples/Votes.antt =====
-- A producer that is granted, and one of its consumers that had voted before.
use postmarketos_x00td_cellu.Common.{
  ℕ, zero, suc, ◌≡◌, refl, true, Option, none, some, [], ◌∷◌, replicate, arith,
}
use postmarketos_x00td_cellu.Common.Int.{pos}
use postmarketos_x00td_cellu.Rm.{is_prod, ipa_rm_prod_index}
use postmarketos_x00td_cellu.Rm.Heap.{granted, Resource, Object, producer, Heap}
use postmarketos_x00td_cellu.Rm.DepGraph.{DepGraph, get_index, valid_index, graph_get_resource}
use postmarketos_x00td_cellu.Rm.Profile.{ProfVote, rm_perf_profile_change}
use postmarketos_x00td_cellu.Rm.Voting.{Voted, rm_perf_profile_change-Voted}

abbrev resource : Resource
resource = record {
  name = 2;
  floor_voltage = 2;
  max_bw = 10;
  needed_bw = 20;
  state = granted;
  peers_list = none;
}

abbrev object : Object
object =
    producer (record {
      resource = resource;
      event_listeners = [];
      pending_request = 0;
      pending_release = 0;
    })

abbrev objects : ℕ → Option Object
objects (suc (suc zero)) = some object
objects _ = none

abbrev heap : Heap
heap = record { object = objects; calls = [] }

abbrev graph : DepGraph
graph = record { resource_table = none ∷ none ∷ some 2 ∷ replicate 19 none }

abbrev before : ProfVote
before = record {
  volt = 0 ∷ 1 ∷ replicate 20 0;
  curr_volt = 1;
  bw_resources = 0 ∷ 7 ∷ replicate 20 0;
  curr_bw = 0;
}

found_2 : graph_get_resource (some graph) 2 ≡ some (pos 0, some 2)
unfolding graph_get_resource get_index valid_index is_prod ipa_rm_prod_index
found_2 = refl

-- The vote goes to voltage 2 and bandwidth 7.
votes :
    rm_perf_profile_change (some graph) 2 true heap before
    ≡ some (
      some (2, 7),
      record {
        volt = 0 ∷ 1 ∷ 2 ∷ replicate 19 0;
        curr_volt = 2;
        bw_resources = 0 ∷ 7 ∷ 10 ∷ replicate 19 0;
        curr_bw = 7;
      },
    )
unfolding rm_perf_profile_change get_index valid_index is_prod ipa_rm_prod_index
votes = refl

rm_perf_profile_change-Voted_example :
    (q : Option (ℕ × ℕ)) × (w : ProfVote) × (rm_perf_profile_change (some graph) 2 true heap before
      ≡ some (q, w))
    × Voted 2 resource before w
    × (rm_perf_profile_change (some graph) 2 true heap w ≡ some (none, w))
rm_perf_profile_change-Voted_example =
    rm_perf_profile_change-Voted (some graph) 2 2 object true heap before found_2 refl (omega arith)
      (omega arith)
