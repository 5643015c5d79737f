-- ===== src/Rm/Voting.antt =====
-- The vote that the resources' states lead to.
use postmarketos_x00td_cellu.Common.{
  ℕ, zero, suc, ◌+◌, ◌%◌, ◌≤◌, ◌<◌, ◌≡◌, ◌≢◌, refl, sym, ap, subst, ◌∙◌, ◌⊎◌, inl, inr, Bool, true,
  Option, none, some, List, [], ◌∷◌, length, get_elem?, set, length-set, get_elem?-set_self,
  get_elem?-set_ne, Bool-cases, ltb, lt→ltb, ==-refl, if◌then◌else◌, arith,
}
use postmarketos_x00td_cellu.Common.Int.{pos}
use postmarketos_x00td_cellu.Rm.{is_prod}
use postmarketos_x00td_cellu.Rm.Heap.{
  ResourceState, released, request_in_progress, granted, release_in_progress, Object, Heap,
  Resource, base,
}
use postmarketos_x00td_cellu.Common.Fault.{>>=-some}
use postmarketos_x00td_cellu.Rm.DepGraph.{DepGraph, graph_get_resource}
use postmarketos_x00td_cellu.Rm.Profile.{
  ProfVote, highest_volt, sums, least, vote, wanted, write_at, same_vote, notify_to_ipa,
  change_vote, rm_perf_profile_change,
}

-- A number above all of a list, which the list holds or which is 0.
pub record IsHighest (xs : List ℕ) (top : ℕ) : Type 0 where
  pub above : (i x : ℕ) → get_elem? xs i ≡ some x → x ≤ top
  pub reached : (top ≡ 0) ⊎ ((i : ℕ) × (get_elem? xs i ≡ some top))

higher : (a v : ℕ) → (a ≤ (if ltb a v then v else a)) × (v ≤ (if ltb a v then v else a))
higher a v = (ground arith, ground arith)

IsTopOf : List ℕ → ℕ → Type 0
unfolding highest_volt
IsTopOf xs curr =
    (curr ≤ highest_volt xs curr)
    × ((i x : ℕ) → get_elem? xs i ≡ some x → x ≤ highest_volt xs curr)
    × ((highest_volt xs curr ≡ curr) ⊎ ((i : ℕ) × (get_elem? xs i ≡ some (highest_volt xs curr))))

turn : (v a : ℕ) → ((if ltb a v then v else a) ≡ v) ⊎ ((if ltb a v then v else a) ≡ a)
turn v a = ground arith

highest_volt_lem : (xs : List ℕ) (curr : ℕ) → IsTopOf xs curr
unfolding IsTopOf
highest_volt_lem [] curr = (omega arith, λ i x e. absurd (ground arith), inl refl)
highest_volt_lem (v ∷ vs) curr =
    let next : ℕ = if ltb curr v then v else curr in
    let (over, above, reached) = highest_volt_lem vs next in
    let (a, b) = higher curr v in
    (
      omega (arith, over, a),
      λ i x e. at next over above b i x e,
      elim reached [
        | inr (i, e) ↦ inr (suc i, e)
        | inl e ↦ elim (turn v curr) [
          | inl f ↦ inr (0, ap some (sym (e ∙ f)))
          | inr f ↦ inl (e ∙ f)
        ]
      ],
    )
  where
    at :
        (next : ℕ)
        → next ≤ highest_volt vs next
        → ((i x : ℕ) → get_elem? vs i ≡ some x → x ≤ highest_volt vs next)
        → v ≤ next
        → (i x : ℕ) → get_elem? (v ∷ vs) i ≡ some x
        → x ≤ highest_volt vs next
    at next over above b zero x e = let f : v ≡ x = ground arith in omega (arith, f, over, b)
    at next over above b (suc i) x e = above i x e

highest_volt-IsHighest : (xs : List ℕ) → IsHighest xs (highest_volt xs 0)
unfolding IsTopOf
highest_volt-IsHighest xs =
    let (over, above, reached) = highest_volt_lem xs 0 in
    record { above = above; reached = reached }

-- The smaller of two numbers.
abbrev pub IsLeast : ℕ → ℕ → ℕ → Type 0
IsLeast a b x = (x ≤ a) × (x ≤ b) × ((x ≡ a) ⊎ (x ≡ b))

least-IsLeast : (a b : ℕ) → IsLeast a b (least a b)
unfolding least
least-IsLeast a b = (ground arith, ground arith, ground arith)

pub data IsRequested : ResourceState → Type 0 where
  requested_granted : IsRequested granted
  requested_waiting : IsRequested request_in_progress

pub data IsUnused : ResourceState → Type 0 where
  unused_released : IsUnused released
  unused_leaving : IsUnused release_in_progress

-- What a resource asks for by its state: what it needs, up to its bandwidth, at its floor voltage, or
-- nothing.
pub data Wants (r : Resource) (bw volt : ℕ) : Type 0 where
  in_use :
      IsRequested r.state
      → IsLeast r.max_bw r.needed_bw bw
      → volt ≡ r.floor_voltage
      → Wants r bw volt
  not_in_use : IsUnused r.state → bw ≡ 0 → volt ≡ 0 → Wants r bw volt

wanted-Wants : (r : Resource) → Wants r (wanted r).0 (wanted r).1
unfolding wanted
wanted-Wants r = by r.state refl
  where
    by : (s : ResourceState) → r.state ≡ s → Wants r (wanted r).0 (wanted r).1
    by granted e =
        rw (wanted, e) (in_use requested_granted (least-IsLeast r.max_bw r.needed_bw) refl)
    by request_in_progress e =
        rw (wanted, e) (in_use requested_waiting (least-IsLeast r.max_bw r.needed_bw) refl)
    by release_in_progress e = rw (wanted, e) (not_in_use unused_leaving refl refl)
    by released e = rw (wanted, e) (not_in_use unused_released refl refl)

set-set : (xs : List ℕ) (i x : ℕ) → set (set xs i x) i x ≡ set xs i x
set-set [] i x = refl
set-set (y ∷ ys) zero x = refl
set-set (y ∷ ys) (suc i) x = ap (λ l. y ∷ l) (set-set ys i x)

write_at_lem : (i x : ℕ) (xs : List ℕ) → i < length xs → write_at i x xs ≡ some (set xs i x)
unfolding write_at
write_at_lem i x xs b = rw (lt→ltb i (length xs) b) refl

-- The sums of the producers' entries, from an index on, and of the others.
pub producers : ℕ → List ℕ → ℕ
producers i [] = 0
producers i (bw ∷ bws) = (if is_prod i then bw else 0) + producers (suc i) bws

pub others : ℕ → List ℕ → ℕ
others i [] = 0
others i (bw ∷ bws) = (if is_prod i then 0 else bw) + others (suc i) bws

sums_lem :
    (i : ℕ) (bws : List ℕ) (a b : ℕ)
    → a < 4294967296
    → b < 4294967296
    → ((sums i bws a b).0 ≡ (a + producers i bws) % 4294967296)
      × ((sums i bws a b).1 ≡ (b + others i bws) % 4294967296)
unfolding sums producers others
sums_lem i [] a b h k = (omega arith, omega arith)
sums_lem i (bw ∷ bws) a b h k = elim (Bool-cases (is_prod i)) [
  | inl e ↦
      let (p, q) = sums_lem (suc i) bws ((a + bw) % 4294967296) b (omega arith) k in
      rw (sums, e) (omega (arith, p), omega (arith, q))
  | inr e ↦
      let (p, q) = sums_lem (suc i) bws a ((b + bw) % 4294967296) h (omega arith) in
      rw (sums, e) (omega (arith, p), omega (arith, q))
]

-- The vote `w` that a resource `r` of a name leads to, from the vote `v`.
pub record Voted (name : ℕ) (r : Resource) (v w : ProfVote) : Type 0 where
  pub volts : IsHighest w.volt w.curr_volt
  pub asked :
      (bw : ℕ) × (volt : ℕ) × (get_elem? w.bw_resources name ≡ some bw)
      × (get_elem? w.volt name ≡ some volt)
      × Wants r bw volt
  pub other_volts : (m : ℕ) → name ≢ m → get_elem? w.volt m ≡ get_elem? v.volt m
  pub other_bws : (m : ℕ) → name ≢ m → get_elem? w.bw_resources m ≡ get_elem? v.bw_resources m
  pub lesser_sum :
      IsLeast
        (producers 0 w.bw_resources % 4294967296)
        (others 0 w.bw_resources % 4294967296)
        w.curr_bw

smaller :
    (bws : List ℕ)
    → IsLeast
        (producers 0 bws % 4294967296)
        (others 0 bws % 4294967296)
        (least (sums 0 bws 0 0).0 (sums 0 bws 0 0).1)
smaller bws =
    let (p, q) = sums_lem 0 bws 0 0 (omega arith) (omega arith) in
    let p0 : (sums 0 bws 0 0).0 ≡ producers 0 bws % 4294967296 = omega (arith, p) in
    let q0 : (sums 0 bws 0 0).1 ≡ others 0 bws % 4294967296 = omega (arith, q) in
    subst (λ x. IsLeast x (others 0 bws % 4294967296) (least (sums 0 bws 0 0).0 (sums 0 bws 0 0).1))
      p0
      (subst (λ y. IsLeast (sums 0 bws 0 0).0 y (least (sums 0 bws 0 0).0 (sums 0 bws 0 0).1)) q0
        (least-IsLeast (sums 0 bws 0 0).0 (sums 0 bws 0 0).1))

module _ (name : ℕ) (r : Resource) (v : ProfVote) (size_v : name < length v.volt)
    (size_b : name < length v.bw_resources) where
  abbrev after : ProfVote
  unfolding wanted
  after = vote (set v.volt name (wanted r).1) (set v.bw_resources name (wanted r).0)

  after-Voted : Voted name r v after
  unfolding after vote
  after-Voted =
      let bw = (wanted r).0 in
      let volts = set v.volt name (wanted r).1 in
      let bws = set v.bw_resources name bw in
      record {
        volts = highest_volt-IsHighest volts;
        asked = (
          bw,
          (wanted r).1,
          get_elem?-set_self v.bw_resources name bw size_b,
          get_elem?-set_self v.volt name (wanted r).1 size_v,
          wanted-Wants r,
        );
        other_volts = λ m d. get_elem?-set_ne v.volt name m (wanted r).1 d;
        other_bws = λ m d. get_elem?-set_ne v.bw_resources name m bw d;
        lesser_sum = smaller bws;
      }

  change_vote_lem :
      (alloc_ok : Bool)
      → change_vote name r alloc_ok v
        ≡ some (
          if same_vote after v then none else notify_to_ipa after.curr_volt after.curr_bw alloc_ok,
          after,
        )
  unfolding change_vote after
  change_vote_lem alloc_ok =
      rw
        (
          write_at_lem name (wanted r).0 v.bw_resources size_b,
          write_at_lem name (wanted r).1 v.volt size_v,
        )
        refl

same_vote_refl : (v : ProfVote) → same_vote v v ≡ true
unfolding same_vote
same_vote_refl v = rw (==-refl v.curr_volt, ==-refl v.curr_bw) refl

-- Voting again for the same resource.
after-after :
    (name : ℕ) (r : Resource) (v : ProfVote) (size_v : name < length v.volt)
    (size_b : name < length v.bw_resources)
    (size_w : name < length (after name r v size_v size_b).volt)
    (size_c : name < length (after name r v size_v size_b).bw_resources)
    → after name r (after name r v size_v size_b) size_w size_c ≡ after name r v size_v size_b
unfolding after vote
after-after name r v size_v size_b size_w size_c =
    rw (set-set v.volt name (wanted r).1, set-set v.bw_resources name (wanted r).0) refl

again :
    (name : ℕ) (r : Resource) (v : ProfVote) (alloc_ok : Bool) (size_v : name < length v.volt)
    (size_b : name < length v.bw_resources)
    → change_vote name r alloc_ok (after name r v size_v size_b)
      ≡ some (none, after name r v size_v size_b)
unfolding after vote
again name r v alloc_ok size_v size_b =
    let w = after name r v size_v size_b in
    let size_w : name < length w.volt = omega (arith, length-set v.volt name (wanted r).1) in
    let size_c : name < length w.bw_resources =
      omega (arith, length-set v.bw_resources name (wanted r).0) in
    subst
      (λ u.
        change_vote name r alloc_ok w
        ≡ some (if same_vote u w then none else notify_to_ipa u.curr_volt u.curr_bw alloc_ok, u))
      (after-after name r v size_v size_b size_w size_c)
      (change_vote_lem name r w size_w size_c alloc_ok)
    ∙ rw (same_vote_refl w) refl

-- A change of a resource that is in the table returns and leads to the vote of its state: a resource
-- that is granted or requested has the smaller of what it needs and of what it has, at its floor voltage,
-- and another resource 0 of both. The voltage is the highest of all, the bandwidth is the smaller one of
-- the u32 sum of the producers' entries and that of the others, and no other resource's entry changes. The change
-- again, with the resource as it was, queues no work and leaves the vote.
pub rm_perf_profile_change-Voted :
    (g : Option DepGraph) (name n : ℕ) (o : Object) (alloc_ok : Bool) (h : Heap) (v : ProfVote)
    → graph_get_resource g name ≡ some (pos 0, some n)
    → h.object n ≡ some o
    → name < length v.volt
    → name < length v.bw_resources
    → (q : Option (ℕ × ℕ)) × (w : ProfVote) × (rm_perf_profile_change g name alloc_ok h v
        ≡ some (q, w))
      × Voted name (base o) v w
      × (rm_perf_profile_change g name alloc_ok h w ≡ some (none, w))
unfolding rm_perf_profile_change
rm_perf_profile_change-Voted g name n o alloc_ok h v found there size_v size_b = (
  _,
  after name (base o) v size_v size_b,
  >>=-some _ found ∙ >>=-some _ there ∙ change_vote_lem name (base o) v size_v size_b alloc_ok,
  after-Voted name (base o) v size_v size_b,
  >>=-some _ found ∙ >>=-some _ there ∙ again name (base o) v alloc_ok size_v size_b,
)
