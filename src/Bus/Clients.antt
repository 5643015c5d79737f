-- ===== src/Bus/Clients.antt =====
-- The table of clients over any run of calls.
use postmarketos_x00td_cellu.Common.{
  ℕ, zero, suc, ◌+◌, ◌≤◌, ◌<◌, ◌≡◌, ◌≢◌, refl, subst, ◌∙◌, inl, inr, true, false, Option, none,
  some, List, [], ◌∷◌, replicate, ◌++◌, length, length-append, get_elem?, get_elem?-total,
  lt_of_get_elem?, String, Option-cases, Bool-cases, leb, arith,
}
use postmarketos_x00td_cellu.Common.Fault.{>>=-some}
use postmarketos_x00td_cellu.Common.Int.{pos}
use postmarketos_x00td_cellu.Bus.{
  Vector, Usecase, Pdata, CompatPath, Handle, IccCall, Framework, Compat, no_handle, Turn, full,
  next, icc_name, find_path, free_slot, find_slot, get_path, acquire_one, acquire,
}

pub data AllNamed : List CompatPath → Type 0 where
  nil : AllNamed []
  cons :
      {p : CompatPath} {ps : List CompatPath}
      → icc_name p.src p.dst ≢ none
      → AllNamed ps
      → AllNamed (p ∷ ps)

snoc :
    (p : CompatPath) (ps : List CompatPath)
    → icc_name p.src p.dst ≢ none
    → AllNamed ps
    → AllNamed (ps ++ p ∷ [])
snoc p [] h nil = cons h nil
snoc p (q ∷ ps) h (cons g a) = cons g (snoc p ps h a)

-- The paths of a client: at most as many as its array has room for, each with a name of its own.
pub record IsPaths (ps : List CompatPath) : Type 0 where
  pub short : length ps ≤ 6
  pub named : AllNamed ps

abbrev pub AllFit : List Usecase → Type 0
AllFit [] = Unit {0}
AllFit (uc ∷ ucs) = (uc.num_paths ≤ length uc.vectors) × AllFit ucs

pub AllFit-get_elem? :
    (ucs : List Usecase) (i : ℕ) (uc : Usecase)
    → AllFit ucs
    → get_elem? ucs i ≡ some uc
    → uc.num_paths ≤ length uc.vectors
AllFit-get_elem? [] i uc a e = absurd (ground arith)
AllFit-get_elem? (x ∷ ucs) zero uc (b, a) e =
    let same : x ≡ uc = ground arith in
    subst (λ (y : Usecase). y.num_paths ≤ length y.vectors) same b
AllFit-get_elem? (x ∷ ucs) (suc i) uc (b, a) e = AllFit-get_elem? ucs i uc a e

-- A client's data: a table as long as its count, with as many vectors as each use case counts.
pub record IsPdata (pdata : Pdata) : Type 0 where
  pub table : List Usecase
  pub count : ℕ
  pub is_table : pdata.usecase ≡ some table
  pub is_count : pdata.num_usecases ≡ pos count
  pub positive : 0 < count
  pub fits : count ≤ length table
  pub in_int : count < 2147483648
  pub vectors_fit : AllFit table

pub record IsHandle (h : Handle) : Type 0 where
  pub paths : IsPaths h.paths
  pub served : h.in_use ≡ true → (p : Pdata) × (h.pdata ≡ some p) × IsPdata p × (0 < length h.paths)

pub record IsCompat (s : Compat) : Type 0 where
  pub size : length s.handles ≡ 4
  pub each : (i : ℕ) (h : Handle) → get_elem? s.handles i ≡ some h → IsHandle h

pub no_handle-IsHandle : IsHandle no_handle
no_handle-IsHandle = record {
  paths = record { short = omega arith; named = nil };
  served = λ e. cc;
}

-- The static table, without a client.
pub free_table-IsCompat :
    (device : Option ℕ) (calls : List IccCall)
    → IsCompat (record { device = device; handles = replicate 4 no_handle; calls = calls })
free_table-IsCompat device calls = record { size = refl; each = free 4 }
  where
    free : (n i : ℕ) (h : Handle) → get_elem? (replicate n no_handle) i ≡ some h → IsHandle h
    free zero i h e = absurd (ground arith)
    free (suc n) zero h e =
        let same : no_handle ≡ h = ground arith in subst IsHandle same no_handle-IsHandle
    free (suc n) (suc i) h e = free n i h e

abbrev IsTurn : Turn → Type 0
IsTurn full = Unit {0}
IsTurn (next ps calls) = IsPaths ps

get_path-IsTurn :
    (f : Framework) (v : Vector) (name : String) (ps : List CompatPath) (calls : List IccCall)
    → IsPaths ps
    → length ps < 6
    → icc_name v.src v.dst ≢ none
    → IsTurn (get_path f v name ps calls)
unfolding get_path
get_path-IsTurn f v name ps calls w room known = elim (Option-cases (f.icc_get calls name)) [
  | inl e ↦ rw (get_path, e) w
  | inr (p, e) ↦
      rw (get_path, e)
        (record {
          short =
              omega (arith, length-append ps (record { src = v.src; dst = v.dst; path = p } ∷ []));
          named = snoc _ ps known w.named;
        })
]

acquire_one-IsTurn :
    (f : Framework) (v : Vector) (ps : List CompatPath) (calls : List IccCall)
    → IsPaths ps
    → IsTurn (acquire_one f v ps calls)
unfolding acquire_one
acquire_one-IsTurn f v ps calls w = elim (Option-cases (icc_name v.src v.dst)) [
  | inl e ↦ rw (acquire_one, e) w
  | inr (name, e) ↦ elim (Option-cases (find_path ps v.src v.dst)) [
    | inr (p, g) ↦ rw (acquire_one, e, g) w
    | inl g ↦ elim (Bool-cases (leb 6 (length ps))) [
      | inl l ↦ rw (acquire_one, e, g, l) tt
      | inr l ↦
          let room : length ps < 6 = ground arith in
          rw (acquire_one, e, g, l) (get_path-IsTurn f v name ps calls w room (λ q. cc))
    ]
  ]
]

abbrev pub Got : Option (List CompatPath × List IccCall) → Type 0
Got r = (qs : List CompatPath) × (calls : List IccCall) × (r ≡ some (qs, calls)) × IsPaths qs

turned :
    (ps : List CompatPath) (calls : List IccCall)
    (rest : List CompatPath → List IccCall → Option (List CompatPath × List IccCall)) (t : Turn)
    → IsPaths ps
    → IsTurn t
    → ((qs : List CompatPath) (cs : List IccCall) → IsPaths qs → Got (rest qs cs))
    → Got (elim t [ full ↦ some (ps, calls) | next qs cs ↦ rest qs cs ])
turned ps calls rest full w v ih = (ps, calls, refl, w)
turned ps calls rest (next qs cs) w v ih = ih qs cs v

-- The walk over the vectors returns.
pub acquire_total :
    (f : Framework) (vs : List Vector) (k i : ℕ) (ps : List CompatPath) (calls : List IccCall)
    → i + k ≤ length vs
    → IsPaths ps
    → Got (acquire f vs k i ps calls)
unfolding acquire
acquire_total f vs zero i ps calls h w = (ps, calls, refl, w)
acquire_total f vs (suc k) i ps calls h w =
    let (v, e) = get_elem?-total vs i (omega arith) in
    let ih =
      turned ps calls (λ qs cs. acquire f vs k (i + 1) qs cs) (acquire_one f v ps calls) w
        (acquire_one-IsTurn f v ps calls w)
        (λ qs cs u. acquire_total f vs k (i + 1) qs cs (omega arith) u) in
    (ih.0, ih.1, >>=-some _ e ∙ ih.2, ih.3)

pub free_slot_lem :
    (hs : List Handle) (k slot : ℕ)
    → free_slot hs k ≡ some slot
    → (j : ℕ) × (h : Handle) × (slot ≡ k + j) × (get_elem? hs j ≡ some h) × (h.in_use ≡ false)
unfolding free_slot
free_slot_lem [] k slot e = absurd (ground arith)
free_slot_lem (h ∷ hs) k slot e = elim (Bool-cases h.in_use) [
  | inr u ↦ (0, h, ground arith, refl, u)
  | inl u ↦
      let rest : free_slot hs (k + 1) ≡ some slot = ground arith in
      let (j, g, a, b, c) = free_slot_lem hs (k + 1) slot rest in (suc j, g, omega arith, b, c)
]

-- A slot that is found has no client.
pub find_slot_lem :
    (s : Compat) (slot : ℕ)
    → length s.handles ≡ 4
    → find_slot s ≡ some slot
    → (slot < 4) × (g : Handle) × (get_elem? s.handles slot ≡ some g) × (g.in_use ≡ false)
unfolding find_slot
find_slot_lem s slot size e = by s.device e
  where
    by :
        (d : Option ℕ)
        → (elim d [ none ↦ none | some dev ↦ free_slot s.handles 0 ]) ≡ some slot
        → (slot < 4) × (g : Handle) × (get_elem? s.handles slot ≡ some g) × (g.in_use ≡ false)
    by none e = absurd (ground arith)
    by (some dev) e =
        let (j, g, a, at, unused) = free_slot_lem s.handles 0 slot e in
        let same : j ≡ slot = omega (arith, a) in
        let at' : get_elem? s.handles slot ≡ some g =
          subst (λ i. get_elem? s.handles i ≡ some g) same at in
        (omega (arith, lt_of_get_elem? s.handles slot g at'), g, at', unused)
