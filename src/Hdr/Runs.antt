-- ===== src/Hdr/Runs.antt =====
-- Headers are added and deleted in any order.
use postmarketos_x00td_cellu.Common.{
  ℕ, ◌+◌, ◌≤◌, ◌<◌, ◌≡◌, ◌≢◌, refl, ap, ◌∙◌, inl, inr, Bool, false, Option, none, some, List, [],
  ◌∷◌, Option-cases, arith,
}
use postmarketos_x00td_cellu.Common.Fault.{◌>>=◌, >>=-some}
use postmarketos_x00td_cellu.Common.Int.{ℤ, einval}
use postmarketos_x00td_cellu.Hdr.Apart.{no_slots, no_slots-IsSlots}
use postmarketos_x00td_cellu.Hdr.Tables.{
  HdrAdd, HdrEntry, Object, hdr_entry, ctx_entry, foreign, Tables, Platform, hdr_bin_sz,
  find_object,
}
use postmarketos_x00td_cellu.Hdr.Headers.{HdrAnswers, add_hdr, del_hdr}
use postmarketos_x00td_cellu.Hdr.Live.{
  Live, IsTables, LieApart, LiesInside, live-LieApart, live-LiesInside,
}
use postmarketos_x00td_cellu.Hdr.Listed.{IsListed, listings}
use postmarketos_x00td_cellu.Hdr.Hardware.{generate_hdr_hw_tbl}
use postmarketos_x00td_cellu.Hdr.Written.{Generates, generate_hdr_hw_tbl-Generates}
use postmarketos_x00td_cellu.Hdr.Added.{add_hdr-Adds}
use postmarketos_x00td_cellu.Hdr.Deleted.{del_hdr-Deletes}

pub data Call : Type 0 where
  add : HdrAnswers → HdrAdd → Bool → Call
  del : ℕ → Bool → Call

unfoldable pub step : Platform → Call → Tables → Option Tables
unfolding add_hdr del_hdr
step p (add a request user) s = do (result, hdl, s1) ← add_hdr p a request user s; some s1
step p (del hdl by_user) s = do (result, s1) ← del_hdr hdl by_user s; some s1

unfoldable pub run : Platform → List Call → Tables → Option Tables
unfolding step
run p [] s = some s
run p (c ∷ cs) s = do s1 ← step p c s; run p cs s1

-- The tables that ipa_init starts with.
abbrev pub no_tables : Tables
no_tables = record {
  object = λ n. none;
  fresh = 0;
  ids = λ hdl. none;
  hdr_list = [];
  hdr_slots = no_slots;
  hdr_cnt = 0;
  ctx_list = [];
  ctx_slots = no_slots;
  ctx_cnt = 0;
  dma = [];
}

pub no_tables-IsTables : (mem_size : ℕ) → IsTables mem_size no_tables
no_tables-IsTables mem_size = record {
  bins = [];
  slots = no_slots-IsSlots hdr_bin_sz;
  fits = omega arith;
  owns = λ n e l. absurd cc;
  distinct = λ n m e f l k q. absurd cc;
  unborn = λ n h. refl;
  handles = λ hdl n q. absurd cc;
  known = λ hdl n e q l. absurd cc;
}

no_tables-IsListed : IsListed no_tables
unfolding listings
no_tables-IsListed = record {
  listed = λ m h. absurd (omega arith);
  complete = λ m h. (let (e, l) = h in absurd cc);
}

-- A call returns valid tables.
abbrev Keeps : Platform → Option Tables → Type 0
Keeps p r = (s' : Tables) × (r ≡ some s') × IsTables p.hdr_mem_size s' × IsListed s'

module _ (p : Platform) (small : p.hdr_mem_size + 60 < 4294967296)
    (older_hw : p.is_v2_5 ≡ false) where
  module _ (s : Tables) (w : IsTables p.hdr_mem_size s) (v : IsListed s) where
    not_found :
        (hdl : ℕ) (by_user : Bool) → s.ids hdl ≡ none → del_hdr hdl by_user s ≡ some (einval, s)
    unfolding del_hdr find_object
    not_found hdl by_user q = rw (del_hdr, find_object, q) refl

    deleted :
        (hdl n : ℕ) (by_user : Bool) (o : Object)
        → s.ids hdl ≡ some n
        → s.object n ≡ some o
        → (result : ℤ) × (s' : Tables) × (del_hdr hdl by_user s ≡ some (result, s'))
          × IsTables p.hdr_mem_size s'
          × IsListed s'
    unfolding del_hdr find_object
    deleted hdl n by_user (hdr_entry e) q h =
        let d = del_hdr-Deletes p.hdr_mem_size s w hdl n e q h by_user in
        (d.result, d.after, d.returns, d.valid, d.listing v)
    deleted hdl n by_user (ctx_entry c) q h =
        (einval, s, rw (del_hdr, find_object, q, h) refl, w, v)
    deleted hdl n by_user foreign q h = (einval, s, rw (del_hdr, find_object, q, h) refl, w, v)

    step-Keeps : (c : Call) → Keeps p (step p c s)
    unfolding step
    step-Keeps (add a request user) =
        let d = add_hdr-Adds p a request s w user small older_hw in
        (d.after, ap (λ r. do y ← r; some y.2) d.returns, d.valid, d.listing v)
    step-Keeps (del hdl by_user) = elim (Option-cases (s.ids hdl)) [
      | inl q ↦ (s, ap (λ r. do y ← r; some y.1) (not_found hdl by_user q), w, v)
      | inr (n, q) ↦
          let (o, h) = w.handles hdl n q in
          let (result, s', r, x, y) = deleted hdl n by_user o q h in
          (s', ap (λ t. do z ← t; some z.1) r, x, y)
    ]

  run-Keeps :
      (cs : List Call) (s : Tables) → IsTables p.hdr_mem_size s → IsListed s → Keeps p (run p cs s)
  unfolding run
  run-Keeps [] s w v = (s, refl, w, v)
  run-Keeps (c ∷ cs) s w v =
      let (s1, q, w1, v1) = step-Keeps s w v c in
      let (s2, r, w2, v2) = run-Keeps cs s1 w1 v1 in (s2, >>=-some (run p cs) q ∙ r, w2, v2)

  module _ (cs : List Call) where
    -- Whatever headers are added to empty tables and deleted from them, in any order and by any handles, on
    -- a platform before IPA v2.5, every call returns, and in the end no two headers overlap in the memory of
    -- the table, and none lies outside it. The memory ends below 2^32 - 60.
    pub run-LieApart :
        (s : Tables) × (run p cs no_tables ≡ some s)
        × (s.hdr_slots.end_ofst ≤ p.hdr_mem_size)
        × ((n : ℕ) (e : HdrEntry) → Live s n e → LiesInside s.hdr_slots.end_ofst e)
        × ((n m : ℕ) (e f : HdrEntry)
            → n ≢ m
            → Live s n e
            → Live s m f
            → LieApart s.hdr_slots.end_ofst e f)
    run-LieApart =
        let (s, q, w, v) =
          run-Keeps cs no_tables (no_tables-IsTables p.hdr_mem_size) no_tables-IsListed in
        (s, q, w.fits, live-LiesInside p.hdr_mem_size s w, live-LieApart p.hdr_mem_size s w)

    -- After any such run, the generation of the hardware's table makes no access outside its buffer. The
    -- buffer has the size of the end of the slots, and has the bytes of each header that is in the tables
    -- at its offset, not overwritten by another. The generation is refused only for an empty table and
    -- without memory.
    pub run-Generates :
        (alloc_ok : Bool)
        → (s : Tables) × (run p cs no_tables ≡ some s)
          × Generates s alloc_ok (generate_hdr_hw_tbl alloc_ok s)
    run-Generates alloc_ok =
        let (s, q, w, v) =
          run-Keeps cs no_tables (no_tables-IsTables p.hdr_mem_size) no_tables-IsListed in
        (s, q, generate_hdr_hw_tbl-Generates p.hdr_mem_size s w alloc_ok v)
