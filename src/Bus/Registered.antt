-- ===== src/Bus/Registered.antt =====
-- port/files/drivers/platform/msm/ipa/ipa_v2/msm_bus_compat.c: a client is registered.
use postmarketos_x00td_cellu.Common.{
  ℕ, zero, suc, ◌+◌, ◌-◌, ◌<◌, ◌≡◌, ◌≢◌, refl, sym, ap, subst, ◌∙◌, ◌⊎◌, inl, inr, Bool, true,
  false, not, Option, none, some, List, [], ◌∷◌, length, length-set, get_elem?, get_elem?-total,
  get_elem?-set_self, get_elem?-set_ne, set, Option-cases, Bool-cases, ◌==◌, if◌then◌else◌, arith,
}
use postmarketos_x00td_cellu.Common.Fault.{>>=-some}
use postmarketos_x00td_cellu.Common.Int.{is_zero}
use postmarketos_x00td_cellu.Bus.{
  Vector, Usecase, Pdata, CompatPath, Handle, IccCall, Framework, Compat, free_slot, find_slot,
  acquire, register_slot, register_client,
}
use postmarketos_x00td_cellu.Bus.Clients.{
  IsPaths, IsPdata, IsHandle, IsCompat, AllFit-get_elem?, nil, acquire_total, find_slot_lem,
}
use postmarketos_x00td_cellu.Bus.Acquired.{Unavailable, acquire-Unavailable}
use postmarketos_x00td_cellu.Bus.Votes.{IsClient}

same_or_not : (i j : ℕ) → (i ≡ j) ⊎ (i ≢ j)
same_or_not i j = ground arith

-- An entry is replaced.
pub put-IsCompat :
    (s : Compat) (slot : ℕ) (h : Handle) (calls : List IccCall)
    → IsCompat s
    → slot < 4
    → IsHandle h
    → IsCompat (record s { handles = set s.handles slot h; calls = calls })
put-IsCompat s slot h calls w b v = record {
  size = length-set s.handles slot h ∙ w.size;
  each = λ i g e. at i g e (same_or_not slot i);
}
  where
    at :
        (i : ℕ) (g : Handle)
        → get_elem? (set s.handles slot h) i ≡ some g
        → (slot ≡ i) ⊎ (slot ≢ i)
        → IsHandle g
    at i g e (inl q) =
        let there : get_elem? (set s.handles slot h) i ≡ some h =
          subst (λ j. get_elem? (set s.handles slot h) j ≡ some h) q
            (get_elem?-set_self s.handles slot h (omega (arith, w.size))) in
        let same : h ≡ g = ground arith in subst IsHandle same v
    at i g e (inr d) = w.each i g (sym (get_elem?-set_ne s.handles slot i h d) ∙ e)

-- Why a registration gives no handle: the device is not set, each entry has a client, or no vector of the
-- first use case has a path.
pub data Refusal (f : Framework) (pdata : Pdata) (s : Compat) : Type 0 where
  no_device : s.device ≡ none → Refusal f pdata s
  no_entry :
      ((i : ℕ) (h : Handle) → get_elem? s.handles i ≡ some h → h.in_use ≡ true) → Refusal f pdata s
  no_path :
      (usecases : List Usecase) (uc : Usecase)
      → pdata.usecase ≡ some usecases
      → get_elem? usecases 0 ≡ some uc
      → ((i : ℕ) (v : Vector)
          → i < uc.num_paths
          → get_elem? uc.vectors i ≡ some v
          → Unavailable f v)
      → Refusal f pdata s

-- The slot of a new client with its data, which no client had before.
abbrev NewClient : Pdata → Compat → ℕ → Compat → Type 0
NewClient pdata s n s' =
    (h : Handle) × IsClient s' n h
    × (h.pdata ≡ some pdata)
    × (g : Handle) × (get_elem? s.handles (n - 1) ≡ some g)
    × (g.in_use ≡ false)

-- What a registration leaves: no client of before has changed, and the handle is 0 or that of a new one.
pub record Registered (f : Framework) (pdata : Pdata) (s : Compat) (n : ℕ) (s' : Compat)
    : Type 0 where
  pub valid : IsCompat s'
  pub kept :
      (j : ℕ) (h : Handle)
      → get_elem? s.handles j ≡ some h
      → h.in_use ≡ true
      → get_elem? s'.handles j ≡ some h
  pub handle : ((n ≡ 0) × Refusal f pdata s) ⊎ NewClient pdata s n s'

refused :
    (f : Framework) (pdata : Pdata) (s : Compat)
    → IsCompat s
    → Refusal f pdata s
    → Registered f pdata s 0 s
refused f pdata s w why = record { valid = w; kept = λ j h e u. e; handle = inl (refl, why) }

free_slot-none :
    (hs : List Handle) (k : ℕ)
    → free_slot hs k ≡ none
    → (i : ℕ) (h : Handle) → get_elem? hs i ≡ some h
    → h.in_use ≡ true
unfolding free_slot
free_slot-none [] k e i h at = absurd (ground arith)
free_slot-none (g ∷ hs) k e i h at = elim (Bool-cases g.in_use) [
  | inr u ↦ absurd (ground (arith, rw u at e))
  | inl u ↦ by i at (free_slot-none hs (k + 1) (rw u at e))
]
  where
    by :
        (i : ℕ)
        → get_elem? (g ∷ hs) i ≡ some h
        → ((j : ℕ) (x : Handle) → get_elem? hs j ≡ some x → x.in_use ≡ true)
        → h.in_use ≡ true
    by zero at ih =
        let same : g ≡ h = ground arith in
        subst (λ (x : Handle). x.in_use ≡ true) same
          (elim (Bool-cases g.in_use) [ inl u ↦ u | inr u ↦ absurd (ground (arith, rw u at e)) ])
    by (suc i) at ih = ih i h at

find_slot-Refusal :
    (f : Framework) (pdata : Pdata) (s : Compat) → find_slot s ≡ none → Refusal f pdata s
unfolding find_slot
find_slot-Refusal f pdata s e = by s.device refl e
  where
    by :
        (d : Option ℕ)
        → s.device ≡ d
        → (elim d [ none ↦ none | some dev ↦ free_slot s.handles 0 ]) ≡ none
        → Refusal f pdata s
    by none q r = no_device q
    by (some dev) q r = no_entry (free_slot-none s.handles 0 r)

module _ (f : Framework) (pdata : Pdata) (v : IsPdata pdata) (s : Compat) (w : IsCompat s) where
  -- The new entry, by the paths that were found.
  abbrev entry : List CompatPath → Handle
  entry ps = record { pdata = some pdata; paths = ps; in_use = not (length ps == 0) }

  abbrev entered : ℕ → List CompatPath → List IccCall → Compat
  entered slot ps calls = record s { handles = set s.handles slot (entry ps); calls = calls }

  entry-IsHandle : (ps : List CompatPath) → IsPaths ps → IsHandle (entry ps)
  entry-IsHandle ps u = record { paths = u; served = λ e. (pdata, refl, v, ground arith) }

  entered-Registered :
      (slot : ℕ) (g : Handle) (ps : List CompatPath) (calls : List IccCall)
      → get_elem? s.handles slot ≡ some g
      → g.in_use ≡ false
      → slot < 4
      → IsPaths ps
      → ((length ps == 0) ≡ true → Refusal f pdata s)
      → Registered f pdata s (if not (length ps == 0) then slot + 1 else 0) (entered slot ps calls)
  entered-Registered slot g ps calls at unused b u why = record {
    valid = put-IsCompat s slot (entry ps) calls w b (entry-IsHandle ps u);
    kept = λ j h e used. get_elem?-set_ne s.handles slot j (entry ps) (λ q. other j h e used q) ∙ e;
    handle = made_or_not (length ps == 0) refl;
  }
    where
      other : (j : ℕ) (h : Handle) → get_elem? s.handles j ≡ some h → h.in_use ≡ true → slot ≢ j
      other j h e used q =
          let there : get_elem? s.handles j ≡ some g =
            subst (λ i. get_elem? s.handles i ≡ some g) q at in
          let same : h ≡ g = ground arith in
          let both : h.in_use ≡ g.in_use = ap (λ (x : Handle). x.in_use) same in cc

      back : slot + 1 - 1 ≡ slot
      back = omega arith

      made_or_not :
          (b : Bool)
          → (length ps == 0) ≡ b
          → let n = if not b then slot + 1 else 0 in
            ((n ≡ 0) × Refusal f pdata s) ⊎ NewClient pdata s n (entered slot ps calls)
      made_or_not true e = inl (refl, why e)
      made_or_not false e = inr (
        entry ps,
        record {
          positive = omega arith;
          bounded = omega arith;
          entry = rw back (get_elem?-set_self s.handles slot (entry ps) (omega (arith, w.size)));
          used = rw e refl;
        },
        refl,
        g,
        rw back at,
        unused,
      )

  register_slot_total :
      (slot : ℕ) (g : Handle)
      → get_elem? s.handles slot ≡ some g
      → g.in_use ≡ false
      → slot < 4
      → (n : ℕ) × (s' : Compat) × (register_slot f pdata v.table slot s ≡ some (n, s'))
        × Registered f pdata s n s'
  unfolding register_slot
  register_slot_total slot g at unused b =
      let (uc, first) = get_elem?-total v.table 0 (omega (arith, v.positive, v.fits)) in
      let (ps, calls, e, u) =
        acquire_total f uc.vectors uc.num_paths 0 [] s.calls
          (omega (arith, AllFit-get_elem? v.table 0 uc v.vectors_fit first))
          (record { short = omega arith; named = nil }) in
      (
        _,
        _,
        >>=-some _ first ∙ >>=-some _ e,
        entered-Registered slot g ps calls at unused b u (nothing uc ps calls first e),
      )
    where
      nothing :
          (uc : Usecase) (ps : List CompatPath) (calls : List IccCall)
          → get_elem? v.table 0 ≡ some uc
          → acquire f uc.vectors uc.num_paths 0 [] s.calls ≡ some (ps, calls)
          → (length ps == 0) ≡ true
          → Refusal f pdata s
      nothing uc [] calls first e z = no_path v.table uc v.is_table first λ i x b at.
          acquire-Unavailable f uc.vectors uc.num_paths 0 s.calls calls e i x (omega arith)
            (omega arith) at
      nothing uc (p ∷ ps) calls first e z = absurd (ground arith)

  -- A registration with well-formed data, in a valid table of clients, returns; the table stays valid and
  -- each client as it was. It gives the handle of a new client with the data, in an entry that had no
  -- client, or 0; and it gives 0 only where the device is not set, each entry has a client, or no vector
  -- of the first use case has a path.
  pub register_client-Registered :
      (n : ℕ) × (s' : Compat) × (register_client f (some pdata) s ≡ some (n, s'))
      × Registered f pdata s n s'
  unfolding register_client
  register_client-Registered = elim (Option-cases (find_slot s)) [
    | inl e ↦ (
      0,
      s,
      rw (register_client, v.is_table, some_count, e) refl,
      refused f pdata s w (find_slot-Refusal f pdata s e),
    )
    | inr (slot, e) ↦
        let (b, g, at, unused) = find_slot_lem s slot w.size e in
        let (n, s', r, u) = register_slot_total slot g at unused b in
        (n, s', rw (register_client, v.is_table, some_count, e) r, u)
  ]
    where
      some_count : is_zero pdata.num_usecases ≡ false
      some_count = rw (v.is_count) (ground (arith, v.positive))
