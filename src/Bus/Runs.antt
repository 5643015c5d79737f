-- ===== src/Bus/Runs.antt =====
-- Any run of calls of the shim, one after the other under its lock.
use postmarketos_x00td_cellu.Common.{
  ℕ, suc, ◌-◌, ◌≤◌, ◌<◌, ◌≡◌, ◌≢◌, refl, ◌∙◌, ◌⊎◌, inl, inr, true, Option, none, some, List, [],
  ◌∷◌, map, get_elem?, get_elem?-total, lt_of_get_elem?, get_elem?-set_self, get_elem?-set_ne, set,
  Bool-cases, leb, arith,
}
use postmarketos_x00td_cellu.Common.Fault.{◌>>=◌, >>=-some}
use postmarketos_x00td_cellu.Common.Int.{pos, einval}
use postmarketos_x00td_cellu.Bus.{
  Pdata, CompatPath, Handle, IccCall, set_bw, Framework, Compat, no_handle, register_client,
  slot_of, drop_votes, unregister_client, to_int, int_ge, update_usecase, update_request,
}
use postmarketos_x00td_cellu.Bus.Clients.{IsPdata, IsCompat, no_handle-IsHandle, AllFit-get_elem?}
use postmarketos_x00td_cellu.Bus.Registered.{put-IsCompat, register_client-Registered}
use postmarketos_x00td_cellu.Bus.Votes.{
  IsClient, slot_of_lem, made, update_request_lem, update_request-votes,
}

abbrev zero_vote : CompatPath → IccCall
zero_vote p = set_bw p.path 0 0

drop_votes_lem :
    (ps : List CompatPath) (calls : List IccCall)
    → drop_votes ps calls ≡ made (map zero_vote ps) calls
unfolding drop_votes
drop_votes_lem [] calls = refl
drop_votes_lem (p ∷ ps) calls = drop_votes_lem ps (zero_vote p ∷ calls)

-- A handle that is out of range, or within the table.
slot_of-cases : (cl : ℕ) → (slot_of cl ≡ none) ⊎ ((0 < cl) × (cl ≤ 4))
unfolding slot_of
slot_of-cases cl = ground arith

-- When a client is taken off, a vote of 0 goes to each of its paths in order, its entry is free, no
-- other entry changes, and an update with its handle is refused with -EINVAL and changes nothing.
pub unregister_client-update :
    (f : Framework) (s : Compat) (cl index : ℕ) (h : Handle)
    → IsClient s cl h
    → (s' : Compat) × (unregister_client cl s ≡ some s')
      × (s'.calls ≡ made (map zero_vote h.paths) s.calls)
      × (get_elem? s'.handles (cl - 1) ≡ some no_handle)
      × ((j : ℕ) → cl ≢ suc j → get_elem? s'.handles j ≡ get_elem? s.handles j)
      × (update_request f cl index s' ≡ some (einval, s'))
unfolding unregister_client update_request
unregister_client-update f s cl index h w =
    let slot = slot_of_lem cl w.positive w.bounded in
    let there =
      get_elem?-set_self s.handles (cl - 1) no_handle
        (lt_of_get_elem? s.handles (cl - 1) h w.entry) in
    (
      record s { handles = set s.handles (cl - 1) no_handle; calls = drop_votes h.paths s.calls },
      rw (unregister_client, slot, w.entry, w.used) refl,
      drop_votes_lem h.paths s.calls,
      there,
      λ j d. get_elem?-set_ne s.handles (cl - 1) j no_handle (λ q. d (omega (arith, w.positive))),
      rw (update_request, slot, there) refl,
    )

pub data Op : Type 0 where
  register : Pdata → Op
  unregister : ℕ → Op
  update : ℕ → ℕ → Op

abbrev pub IsOp : Op → Type 0
IsOp (register pdata) = IsPdata pdata
IsOp (unregister cl) = Unit {0}
IsOp (update cl index) = index < 2147483648

abbrev pub AllOps : List Op → Type 0
AllOps [] = Unit {0}
AllOps (op ∷ ops) = IsOp op × AllOps ops

abbrev Keeps : Option Compat → Type 0
Keeps r = (s : Compat) × (r ≡ some s) × IsCompat s

module _ (f : Framework) where
  pub step : Op → Compat → Option Compat
  step (register pdata) s = do (n, s') ← register_client f (some pdata) s; some s'
  step (unregister cl) s = unregister_client cl s
  step (update cl index) s = do (ret, s') ← update_request f cl index s; some s'

  pub run : List Op → Compat → Option Compat
  run [] s = some s
  run (op ∷ ops) s = do s' ← step op s; run ops s'

  calls-IsCompat :
      (s : Compat) (calls : List IccCall) → IsCompat s → IsCompat (record s { calls = calls })
  calls-IsCompat s calls w = record { size = w.size; each = w.each }

  register-Keeps :
      (pdata : Pdata) (s : Compat) → IsPdata pdata → IsCompat s → Keeps (step (register pdata) s)
  unfolding step
  register-Keeps pdata s v w =
      let (n, s', e, u) = register_client-Registered f pdata v s w in (s', >>=-some _ e, u.valid)

  unregister-Keeps : (cl : ℕ) (s : Compat) → IsCompat s → Keeps (step (unregister cl) s)
  unfolding step unregister_client
  unregister-Keeps cl s w = elim (slot_of-cases cl) [
    | inl e ↦ (s, rw (unregister_client, e) refl, w)
    | inr (a, b) ↦
        let (h, e) = get_elem?-total s.handles (cl - 1) (omega (arith, w.size)) in
        let slot = slot_of_lem cl a b in
        elim (Bool-cases h.in_use) [
          | inl u ↦ (
            _,
            rw (unregister_client, slot, e, u) refl,
            put-IsCompat s (cl - 1) no_handle (drop_votes h.paths s.calls) w (omega arith)
                no_handle-IsHandle,
          )
          | inr u ↦ (s, rw (unregister_client, slot, e, u) refl, w)
        ]
  ]

  out_of_range :
      (h : Handle) (pdata : Pdata) (v : IsPdata pdata) (index : ℕ) (s : Compat)
      → index < 2147483648
      → leb v.count index ≡ true
      → update_usecase f h pdata index s ≡ some (einval, s)
  unfolding update_usecase to_int int_ge
  out_of_range h pdata v index s b above =
      let in_int : to_int index ≡ pos index = ground arith in
      rw (update_usecase, in_int, v.is_count, above) refl

  -- An update of a client.
  client-Keeps :
      (cl index : ℕ) (s : Compat) (h : Handle)
      → IsCompat s
      → IsClient s cl h
      → index < 2147483648
      → Keeps (step (update cl index) s)
  unfolding step
  client-Keeps cl index s h w c b =
      let (pdata, client, v, some_path) = (w.each (cl - 1) h c.entry).served c.used in
      elim (Bool-cases (leb v.count index)) [
        | inl above ↦ (
          s,
          >>=-some _ (
              update_request_lem f s cl h c pdata client index
              ∙ out_of_range h pdata v index s b above),
          w,
        )
        | inr below ↦
            let inside : index < v.count = ground arith in
            let (uc, at) = get_elem?-total v.table index (omega (arith, v.fits)) in
            (
              _,
              >>=-some _ (
                  update_request-votes f s cl h c pdata client v.table uc v.count index v.is_table
                    v.is_count v.in_int inside at
                    (AllFit-get_elem? v.table index uc v.vectors_fit at)),
              calls-IsCompat s _ w,
            )
      ]

  update-Keeps :
      (cl index : ℕ) (s : Compat)
      → IsCompat s
      → index < 2147483648
      → Keeps (step (update cl index) s)
  unfolding step update_request
  update-Keeps cl index s w b = elim (slot_of-cases cl) [
    | inl e ↦ (s, rw (update_request, e) refl, w)
    | inr (a, c) ↦
        let (h, e) = get_elem?-total s.handles (cl - 1) (omega (arith, w.size)) in
        let slot = slot_of_lem cl a c in
        elim (Bool-cases h.in_use) [
          | inl u ↦
              client-Keeps cl index s h w
                (record { positive = a; bounded = c; entry = e; used = u }) b
          | inr u ↦ (s, rw (update_request, slot, e, u) refl, w)
        ]
  ]

  step-Keeps : (op : Op) (s : Compat) → IsOp op → IsCompat s → Keeps (step op s)
  step-Keeps (register pdata) s v w = register-Keeps pdata s v w
  step-Keeps (unregister cl) s v w = unregister-Keeps cl s w
  step-Keeps (update cl index) s v w = update-Keeps cl index s w v

  -- Any run of registrations with well-formed data, of unregistrations with any handle and of updates
  -- with any handle and an index below 2 ^ 31 returns, and keeps the table well-formed: four entries,
  -- each with at most six paths that have names, and each client with at least one path and with its
  -- data.
  pub run-IsCompat :
      (ops : List Op) (s : Compat)
      → AllOps ops
      → IsCompat s
      → (s' : Compat) × (run ops s ≡ some s') × IsCompat s'
  unfolding run
  run-IsCompat [] s v w = (s, refl, w)
  run-IsCompat (op ∷ ops) s (v, vs) w =
      let (s', e, w') = step-Keeps op s v w in
      let (s'', e', w'') = run-IsCompat ops s' vs w' in (s'', >>=-some _ e ∙ e', w'')
