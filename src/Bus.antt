-- ===== src/Bus.antt =====
-- port/files/drivers/platform/msm/ipa/ipa_v2/msm_bus_compat.c: the table of clients that vote for bandwidth,
-- and their votes on the paths of the interconnect framework. The framework is a parameter: what it
-- answers may depend on the calls before. A pointer to a device or a path is a number, NULL is none.
pub mod Rounding
pub mod Clients
pub mod Acquired
pub mod Votes
pub mod Registered
pub mod Runs
use postmarketos_x00td_cellu.Common.{
  ℕ, zero, suc, ◌+◌, ◌-◌, ◌/◌, ◌%◌, Bool, true, false, not, ◌&&◌, ◌||◌, Option, none, some, List,
  [], ◌∷◌, ◌++◌, length, get_elem?, set, String, ltb, leb, ◌==◌, if◌then◌else◌,
}
use postmarketos_x00td_cellu.Common.Fault.{◌>>=◌}
use postmarketos_x00td_cellu.Common.Int.{ℤ, pos, negsuc, is_zero, einval}

-- The 64-bit bandwidths are in bytes per second.
pub record Vector : Type 0 where
  pub src : ℕ
  pub dst : ℕ
  pub ab : ℕ
  pub ib : ℕ

-- struct msm_bus_paths; `num_paths` is the value that the loops use, as an unsigned int.
pub record Usecase : Type 0 where
  pub num_paths : ℕ
  pub vectors : List Vector

pub record Pdata : Type 0 where
  pub usecase : Option (List Usecase)
  pub num_usecases : ℤ

pub record CompatPath : Type 0 where
  pub src : ℕ
  pub dst : ℕ
  pub path : Option ℕ

-- `paths` holds the first `num_paths` elements of the array, whose size is `max_paths`.
pub record Handle : Type 0 where
  pub pdata : Option Pdata
  pub paths : List CompatPath
  pub in_use : Bool

-- The calls of the framework, with their arguments.
pub data IccCall : Type 0 where
  of_icc_get : String → IccCall
  set_bw : Option ℕ → ℕ → ℕ → IccCall

-- What the framework answers, by the calls before, the last one first: devm_of_icc_get an error, which
-- is none, or a path, which may be NULL; icc_set_bw 0 or an error.
pub record Framework : Type 0 where
  pub icc_get : List IccCall → String → Option (Option ℕ)
  pub icc_set_bw : List IccCall → Option ℕ → ℕ → ℕ → ℤ

pub record Compat : Type 0 where
  pub device : Option ℕ
  pub handles : List Handle
  pub calls : List IccCall

abbrev pub max_handles : ℕ
max_handles = 4

abbrev pub max_paths : ℕ
max_paths = 6

abbrev pub master_ipa : ℕ
master_ipa = 90

abbrev pub master_bam_dma : ℕ
master_bam_dma = 91

abbrev pub slave_ebi_ch0 : ℕ
slave_ebi_ch0 = 512

abbrev pub slave_ocimem : ℕ
slave_ocimem = 513

unfoldable pub set_device : ℕ → Compat → Compat
set_device dev s = record s { device = some dev }

unfoldable pub icc_name : ℕ → ℕ → Option String
icc_name src dst =
    if src == master_ipa && dst == slave_ebi_ch0
    then some "ipa-mem"
    else if src == master_ipa && dst == slave_ocimem
    then some "ipa-imem"
    else if src == master_bam_dma && dst == slave_ebi_ch0
    then some "ipa-mem"
    else if src == master_bam_dma && dst == slave_ocimem
    then some "ipa-imem"
    else none

unfoldable pub find_path : List CompatPath → ℕ → ℕ → Option ℕ
find_path [] src dst = none
find_path (p ∷ ps) src dst =
    if (p.src == src) && (p.dst == dst) then p.path else find_path ps src dst

-- DIV_ROUND_UP on u64, cut to u32.
unfoldable pub bps_to_kbps : ℕ → ℕ
bps_to_kbps bps = (bps + 1023) % 18446744073709551616 / 1024 % 4294967296

abbrev pub init_vectors : List Vector
init_vectors =
    record { src = master_ipa; dst = slave_ebi_ch0; ab = 0; ib = 0 }
    ∷ record { src = master_ipa; dst = slave_ocimem; ab = 0; ib = 0 }
    ∷ []

abbrev pub nominal_vectors : List Vector
nominal_vectors =
    record { src = master_ipa; dst = slave_ebi_ch0; ab = 100000000; ib = 1300000000 }
    ∷ record { src = master_ipa; dst = slave_ocimem; ab = 100000000; ib = 1300000000 }
    ∷ []

-- What msm_bus_cl_get_pdata returns.
abbrev pub default_pdata : Pdata
default_pdata = record {
  usecase = some (
      record { num_paths = 2; vectors = init_vectors }
      ∷ record { num_paths = 2; vectors = nominal_vectors }
      ∷ []);
  num_usecases = pos 2;
}

abbrev pub no_handle : Handle
no_handle = record { pdata = none; paths = []; in_use = false }

-- The first slot that is not in use, from `slot` on.
unfoldable pub free_slot : List Handle → ℕ → Option ℕ
free_slot [] slot = none
free_slot (h ∷ hs) slot = if not h.in_use then some slot else free_slot hs (slot + 1)

-- A slot for a new client, once the device is set.
unfoldable pub find_slot : Compat → Option ℕ
unfolding free_slot
find_slot s = elim s.device [ none ↦ none | some dev ↦ free_slot s.handles 0 ]

unfoldable pub drop_votes : List CompatPath → List IccCall → List IccCall
drop_votes [] calls = calls
drop_votes (p ∷ ps) calls = drop_votes ps (set_bw p.path 0 0 ∷ calls)

-- The element of the table that a handle stands for, unless it is out of range.
unfoldable pub slot_of : ℕ → Option ℕ
slot_of cl = if (cl == 0) || ltb max_handles cl then none else some (cl - 1)

unfoldable pub unregister_client : ℕ → Compat → Option Compat
unfolding drop_votes
unregister_client cl s = elim (slot_of cl) [
  | none ↦ some s
  | some slot ↦ do
    h ← get_elem? s.handles slot
    some (
        if h.in_use
        then record s { handles = set s.handles slot no_handle; calls = drop_votes h.paths s.calls }
        else s)
]

-- (int) of an unsigned int.
unfoldable pub to_int : ℕ → ℤ
to_int index = if ltb index 2147483648 then pos index else negsuc (4294967295 - index)

-- a >= b
unfoldable pub int_ge : ℤ → ℤ → Bool
int_ge (pos a) (pos b) = leb b a
int_ge (pos a) (negsuc b) = true
int_ge (negsuc a) (pos b) = false
int_ge (negsuc a) (negsuc b) = leb a b

-- How one round of the walk over the vectors ends: `full` breaks the loop.
pub data Turn : Type 0 where
  full : Turn
  next : List CompatPath → List IccCall → Turn

module _ (f : Framework) where
  unfoldable pub get_path : Vector → String → List CompatPath → List IccCall → Turn
  get_path v name paths calls =
      let calls' = of_icc_get name ∷ calls in
      elim (f.icc_get calls name) [
        | none ↦ next paths calls'
        | some p ↦ next (paths ++ record { src = v.src; dst = v.dst; path = p } ∷ []) calls'
      ]

  unfoldable pub acquire_one : Vector → List CompatPath → List IccCall → Turn
  unfolding icc_name find_path get_path
  acquire_one v paths calls = elim (icc_name v.src v.dst) [
    | none ↦ next paths calls
    | some name ↦ elim (find_path paths v.src v.dst) [
      | some p ↦ next paths calls
      | none ↦ if leb max_paths (length paths) then full else get_path v name paths calls
    ]
  ]

  -- `k` rounds of the walk, from vector `i` on.
  unfoldable pub acquire :
      List Vector → ℕ → ℕ → List CompatPath → List IccCall → Option (List CompatPath × List IccCall)
  unfolding acquire_one
  acquire vectors zero i paths calls = some (paths, calls)
  acquire vectors (suc k) i paths calls = do
    v ← get_elem? vectors i
    elim (acquire_one v paths calls) [
      | full ↦ some (paths, calls)
      | next paths' calls' ↦ acquire vectors k (i + 1) paths' calls'
    ]

  -- The slot is cleared first; without a path it stays free, with the client's pdata.
  unfoldable pub register_slot : Pdata → List Usecase → ℕ → Compat → Option (ℕ × Compat)
  unfolding acquire
  register_slot pdata usecases slot s = do
    uc ← get_elem? usecases 0
    (paths, calls) ← acquire uc.vectors uc.num_paths 0 [] s.calls
    let in_use = not (length paths == 0)
    let h : Handle = record { pdata = some pdata; paths = paths; in_use = in_use }
    some
        (if in_use then slot + 1 else 0, record s { handles = set s.handles slot h; calls = calls })

  -- The handle, or 0.
  unfoldable pub register_client : Option Pdata → Compat → Option (ℕ × Compat)
  unfolding find_slot register_slot
  register_client none s = some (0, s)
  register_client (some pdata) s = elim pdata.usecase [
    | none ↦ some (0, s)
    | some usecases ↦ if is_zero pdata.num_usecases then some (0, s) else elim (find_slot s) [
      | none ↦ some (0, s)
      | some slot ↦ register_slot pdata usecases slot s
    ]
  ]

  -- `ret` is the first error so far.
  unfoldable pub vote_one : Vector → List CompatPath → ℤ → List IccCall → ℤ × List IccCall
  unfolding find_path bps_to_kbps
  vote_one v paths ret calls = elim (find_path paths v.src v.dst) [
    | none ↦ (ret, calls)
    | some p ↦
        let ab_kbps = bps_to_kbps v.ab in
        let ib_kbps = bps_to_kbps v.ib in
        (
          if is_zero ret then f.icc_set_bw calls (some p) ab_kbps ib_kbps else ret,
          set_bw (some p) ab_kbps ib_kbps ∷ calls,
        )
  ]

  unfoldable pub vote_all :
      List Vector → ℕ → ℕ → List CompatPath → ℤ → List IccCall → Option (ℤ × List IccCall)
  unfolding vote_one
  vote_all vectors zero i paths ret calls = some (ret, calls)
  vote_all vectors (suc k) i paths ret calls = do
    v ← get_elem? vectors i
    let (ret', calls') = vote_one v paths ret calls
    vote_all vectors k (i + 1) paths ret' calls'

  unfoldable pub update_usecase : Handle → Pdata → ℕ → Compat → Option (ℤ × Compat)
  unfolding to_int int_ge vote_all
  update_usecase h pdata index s =
      if int_ge (to_int index) pdata.num_usecases then some (einval, s) else do
        usecases ← pdata.usecase
        uc ← get_elem? usecases index
        (ret, calls) ← vote_all uc.vectors uc.num_paths 0 h.paths (pos 0) s.calls
        some (ret, record s { calls = calls })

  unfoldable pub update_request : ℕ → ℕ → Compat → Option (ℤ × Compat)
  unfolding update_usecase
  update_request cl index s = elim (slot_of cl) [
    | none ↦ some (einval, s)
    | some slot ↦ do
      h ← get_elem? s.handles slot
      if not h.in_use then some (einval, s) else elim h.pdata [
        | none ↦ some (einval, s)
        | some pdata ↦ update_usecase h pdata index s
      ]
  ]
