-- ===== src/Rm/Profile.antt =====
-- ipa_rm.c: the vote for voltage and bandwidth that follows from the resources' states. The two
-- arrays of the vote have an entry for each name.
use postmarketos_x00td_cellu.Common.{
  ℕ, suc, Bool, ◌&&◌, Option, none, some, List, [], ◌∷◌, length, set, ltb, ◌==◌, if◌then◌else◌,
}
use postmarketos_x00td_cellu.Common.Fault.{◌>>=◌}
use postmarketos_x00td_cellu.Rm.{is_prod}
use postmarketos_x00td_cellu.Rm.Heap.{
  released, request_in_progress, granted, release_in_progress, Resource, Heap, base, add_u32,
}
use postmarketos_x00td_cellu.Rm.DepGraph.{DepGraph, graph_get_resource}

pub record ProfVote : Type 0 where
  pub volt : List ℕ
  pub curr_volt : ℕ
  pub bw_resources : List ℕ
  pub curr_bw : ℕ

-- The macro min.
unfoldable pub least : ℕ → ℕ → ℕ
least a b = if ltb a b then a else b

-- The first loop, from the voltage found so far.
unfoldable pub highest_volt : List ℕ → ℕ → ℕ
highest_volt [] curr = curr
highest_volt (v ∷ vs) curr = highest_volt vs (if ltb curr v then v else curr)

-- The second loop, from an index on: the sums of the producers and of the others.
unfoldable pub sums : ℕ → List ℕ → ℕ → ℕ → ℕ × ℕ
unfolding is_prod
sums i [] sum_prod sum_cons = (sum_prod, sum_cons)
sums i (bw ∷ bws) sum_prod sum_cons =
    let is_producer = is_prod i in
    sums (suc i) bws (if is_producer then add_u32 sum_prod bw else sum_prod)
      (if is_producer then sum_cons else add_u32 sum_cons bw)

-- What the switch writes for a resource: its bandwidth and its voltage.
unfoldable pub wanted : Resource → ℕ × ℕ
unfolding least
wanted r = elim r.state [
  | granted ↦ (least r.max_bw r.needed_bw, r.floor_voltage)
  | request_in_progress ↦ (least r.max_bw r.needed_bw, r.floor_voltage)
  | release_in_progress ↦ (0, 0)
  | released ↦ (0, 0)
]

unfoldable pub write_at : ℕ → ℕ → List ℕ → Option (List ℕ)
write_at i x xs = if ltb i (length xs) then some (set xs i x) else none

-- The work that is queued, if it can be allocated: the voltage and bandwidth to pass on.
unfoldable pub notify_to_ipa : ℕ → ℕ → Bool → Option (ℕ × ℕ)
notify_to_ipa volt bandwidth alloc_ok = if alloc_ok then some (volt, bandwidth) else none

-- The vote after the entries of a resource are written.
unfoldable pub vote : List ℕ → List ℕ → ProfVote
unfolding highest_volt sums least
vote volts bws =
    let (sum_prod, sum_cons) = sums 0 bws 0 0 in
    record {
      volt = volts;
      curr_volt = highest_volt volts 0;
      bw_resources = bws;
      curr_bw = least sum_prod sum_cons;
    }

unfoldable pub same_vote : ProfVote → ProfVote → Bool
same_vote v w = (v.curr_volt == w.curr_volt) && (v.curr_bw == w.curr_bw)

unfoldable pub change_vote : ℕ → Resource → Bool → ProfVote → Option (Option (ℕ × ℕ) × ProfVote)
unfolding wanted write_at vote same_vote notify_to_ipa
change_vote name r alloc_ok v = do
  let (bw, volt) = wanted r
  bws ← write_at name bw v.bw_resources
  volts ← write_at name volt v.volt
  let w = vote volts bws
  some (if same_vote w v then none else notify_to_ipa w.curr_volt w.curr_bw alloc_ok, w)

-- The work that is queued, and the vote; a resource that is not in the table changes nothing.
unfoldable pub rm_perf_profile_change :
    Option DepGraph → ℕ → Bool → Heap → ProfVote → Option (Option (ℕ × ℕ) × ProfVote)
unfolding graph_get_resource change_vote
rm_perf_profile_change g name alloc_ok h v = do
  (found, r) ← graph_get_resource g name
  elim r [
    | none ↦ some (none, v)
    | some n ↦ do o ← h.object n; change_vote name (base o) alloc_ok v
  ]
