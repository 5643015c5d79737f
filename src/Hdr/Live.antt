-- ===== src/Hdr/Live.antt =====
-- The headers of a table that is not on IPA v2.5, where every header has a slot.
use postmarketos_x00td_cellu.Common.{
  ℕ, zero, suc, ◌+◌, ◌≤◌, ◌<◌, ◌≡◌, ◌≢◌, refl, sym, ◌∙◌, ◌⊎◌, inl, inr, false, none, some, List,
  arith,
}
use postmarketos_x00td_cellu.Hdr.Slots.{Slots}
use postmarketos_x00td_cellu.Hdr.Apart.{times, SlotAt, IsSlots, SlotAt-end, SlotAt-apart}
use postmarketos_x00td_cellu.Hdr.Tables.{HdrEntry, Object, hdr_entry, Tables, hdr_bin_sz}

pub hdr_bin_sz-positive : (b : ℕ) → 0 < hdr_bin_sz b
unfolding hdr_bin_sz
hdr_bin_sz-positive zero = omega arith
hdr_bin_sz-positive (suc zero) = omega arith
hdr_bin_sz-positive (suc (suc zero)) = omega arith
hdr_bin_sz-positive (suc (suc (suc zero))) = omega arith
hdr_bin_sz-positive (suc (suc (suc (suc b)))) = omega arith

-- A header with a slot in use that is large enough for it.
pub record Owns (t : Slots) (e : HdrEntry) : Type 0 where
  pub x : ℕ
  pub bin : ℕ
  pub in_slot : e.offset_entry ≡ some (x, bin)
  pub in_table : e.is_hdr_proc_ctx ≡ false
  pub in_use : 0 < times x (t.used bin)
  pub fits : e.hdr_len ≤ hdr_bin_sz bin

abbrev pub Live : Tables → ℕ → HdrEntry → Type 0
Live s n e = s.object n ≡ some (hdr_entry e)

-- No two headers share a slot, and each handle leads to an object, which knows it.
pub record IsTables (mem_size : ℕ) (s : Tables) : Type 0 where
  pub bins : List ℕ
  pub slots : IsSlots hdr_bin_sz bins s.hdr_slots
  pub fits : s.hdr_slots.end_ofst ≤ mem_size
  pub owns : (n : ℕ) (e : HdrEntry) → Live s n e → Owns s.hdr_slots e
  pub distinct :
      (n m : ℕ) (e f : HdrEntry) → Live s n e → Live s m f → e.offset_entry ≡ f.offset_entry → n ≡ m
  pub unborn : (n : ℕ) → s.fresh ≤ n → s.object n ≡ none
  pub handles : (hdl n : ℕ) → s.ids hdl ≡ some n → (o : Object) × (s.object n ≡ some o)
  pub known : (hdl n : ℕ) (e : HdrEntry) → s.ids hdl ≡ some n → Live s n e → e.id ≡ hdl

-- The bytes of a header lie inside a table.
abbrev pub LiesInside : ℕ → HdrEntry → Type 0
LiesInside end_ofst e =
    (x : ℕ) × (b : ℕ) × (e.offset_entry ≡ some (x, b)) × (x + e.hdr_len ≤ end_ofst)

-- The bytes of two headers of a table lie apart, and inside it.
abbrev pub LieApart : ℕ → HdrEntry → HdrEntry → Type 0
LieApart end_ofst e f =
    (x : ℕ) × (b : ℕ) × (y : ℕ) × (c : ℕ) × (e.offset_entry ≡ some (x, b))
    × (f.offset_entry ≡ some (y, c))
    × (x + e.hdr_len ≤ end_ofst)
    × (y + f.hdr_len ≤ end_ofst)
    × ((x + e.hdr_len ≤ y) ⊎ (y + f.hdr_len ≤ x))

module _ (mem_size : ℕ) (s : Tables) (w : IsTables mem_size s) where
  slot_of : (e : HdrEntry) (o : Owns s.hdr_slots e) → SlotAt hdr_bin_sz w.bins o.bin o.x
  slot_of e o = w.slots.grown o.bin o.x (omega (arith, o.in_use))

  pub live-inside : (e : HdrEntry) (o : Owns s.hdr_slots e) → o.x + e.hdr_len ≤ s.hdr_slots.end_ofst
  live-inside e o =
      omega (arith, SlotAt-end hdr_bin_sz w.bins o.bin o.x (slot_of e o), w.slots.whole, o.fits)

  pub live-LiesInside : (n : ℕ) (e : HdrEntry) → Live s n e → LiesInside s.hdr_slots.end_ofst e
  live-LiesInside n e l = let o = w.owns n e l in (o.x, o.bin, o.in_slot, live-inside e o)

  pub live-LieApart :
      (n m : ℕ) (e f : HdrEntry)
      → n ≢ m
      → Live s n e
      → Live s m f
      → LieApart s.hdr_slots.end_ofst e f
  live-LieApart n m e f d l k =
      let o = w.owns n e l in
      let u = w.owns m f k in
      (
        o.x,
        o.bin,
        u.x,
        u.bin,
        o.in_slot,
        u.in_slot,
        live-inside e o,
        live-inside f u,
        by o u (SlotAt-apart hdr_bin_sz w.bins o.bin u.bin o.x u.x (slot_of e o) (slot_of f u)),
      )
    where
      by :
          (o : Owns s.hdr_slots e) (u : Owns s.hdr_slots f)
          → ((o.bin ≡ u.bin) × (o.x ≡ u.x))
            ⊎ (o.x + hdr_bin_sz o.bin ≤ u.x)
            ⊎ (u.x + hdr_bin_sz u.bin ≤ o.x)
          → (o.x + e.hdr_len ≤ u.x) ⊎ (u.x + f.hdr_len ≤ o.x)
      by o u (inl (a, b)) =
          let same : some (o.x, o.bin) ≡ some (u.x, u.bin) = rw (a, b) refl in
          absurd (d (w.distinct n m e f l k (o.in_slot ∙ same ∙ sym u.in_slot)))
      by o u (inr (inl h)) = inl (omega (arith, o.fits))
      by o u (inr (inr h)) = inr (omega (arith, u.fits))

-- A header as it was, but for its references.
pub record SameHeader (e f : HdrEntry) : Type 0 where
  pub same_slot : e.offset_entry ≡ f.offset_entry
  pub same_place : e.is_hdr_proc_ctx ≡ f.is_hdr_proc_ctx
  pub same_len : e.hdr_len ≡ f.hdr_len
  pub same_id : e.id ≡ f.id

-- Each header was there before, and its slot is still in use.
pub record Remains (s s' : Tables) (m : ℕ) (f : HdrEntry) : Type 0 where
  pub before : HdrEntry
  pub was : Live s m before
  pub same : SameHeader before f
  pub still :
      (x b : ℕ)
      → f.offset_entry ≡ some (x, b)
      → 0 < times x (s.hdr_slots.used b)
      → 0 < times x (s'.hdr_slots.used b)

-- Tables that have lost headers, or references to them.
pub shrunk-IsTables :
    (mem_size : ℕ) (bins : List ℕ) (s s' : Tables)
    → IsTables mem_size s
    → IsSlots hdr_bin_sz bins s'.hdr_slots
    → s'.hdr_slots.end_ofst ≤ mem_size
    → ((m : ℕ) (f : HdrEntry) → Live s' m f → Remains s s' m f)
    → ((m : ℕ) → s'.fresh ≤ m → s'.object m ≡ none)
    → ((hdl m : ℕ)
        → s'.ids hdl ≡ some m
        → (s.ids hdl ≡ some m) × ((o : Object) × (s'.object m ≡ some o)))
    → IsTables mem_size s'
shrunk-IsTables mem_size bins s s' w v fits remains unborn handles = record {
  bins = bins;
  slots = v;
  fits = fits;
  owns = λ m f l. owns m f (remains m f l);
  distinct = λ n m e f l k q. distinct n m e f (remains n e l) (remains m f k) q;
  unborn = unborn;
  handles = λ hdl m q. (handles hdl m q).1;
  known = λ hdl m f q l. known hdl m f (handles hdl m q).0 (remains m f l);
}
  where
    owns : (m : ℕ) (f : HdrEntry) → Remains s s' m f → Owns s'.hdr_slots f
    owns m f r = from (w.owns m r.before r.was)
      where
        from : Owns s.hdr_slots r.before → Owns s'.hdr_slots f
        from o =
            let slot : f.offset_entry ≡ some (o.x, o.bin) = sym r.same.same_slot ∙ o.in_slot in
            record {
              x = o.x;
              bin = o.bin;
              in_slot = slot;
              in_table = sym r.same.same_place ∙ o.in_table;
              in_use = r.still o.x o.bin slot o.in_use;
              fits = omega (arith, o.fits, r.same.same_len);
            }

    distinct :
        (n m : ℕ) (e f : HdrEntry)
        → Remains s s' n e
        → Remains s s' m f
        → e.offset_entry ≡ f.offset_entry
        → n ≡ m
    distinct n m e f r q p =
        w.distinct n m r.before q.before r.was q.was (r.same.same_slot ∙ p ∙ sym q.same.same_slot)

    known : (hdl m : ℕ) (f : HdrEntry) → s.ids hdl ≡ some m → Remains s s' m f → f.id ≡ hdl
    known hdl m f q r = sym r.same.same_id ∙ w.known hdl m r.before q r.was
