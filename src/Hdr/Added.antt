-- ===== src/Hdr/Added.antt =====
-- ipa_hdr.c: an addition of a header, to tables that are not on IPA v2.5.
use postmarketos_x00td_cellu.Common.{
  ℕ, zero, suc, ◌+◌, ◌≤◌, ◌<◌, ◌≡◌, ◌≢◌, refl, sym, ap, subst, ◌∙◌, ◌⊎◌, inl, inr, Bool, false,
  Option, none, some, [], ◌∷◌, take, Option-cases, Bool-cases, ltb, ◌==◌, ==-refl, ==-ne, arith,
}
use postmarketos_x00td_cellu.Common.Fault.{◌>>=◌}
use postmarketos_x00td_cellu.Common.Int.{ℤ, pos, eperm}
use postmarketos_x00td_cellu.Hdr.Slots.{
  Offset, Slots, Reserved, no_room, no_memory, reserved, reserve, release,
}
use postmarketos_x00td_cellu.Hdr.Apart.{times, same_or_not}
use postmarketos_x00td_cellu.Hdr.Reserve.{Gained, Reserves, Freed, reserve-Reserves, release-Freed}
use postmarketos_x00td_cellu.Hdr.Tables.{
  HdrAdd, HdrEntry, Object, hdr_entry, Tables, Platform, hdr_bin_sz, hdr_bin, hdr_l2_max,
  hdr_max_size, count_up, count_down, list_del, put_object, free_object, set_id,
}
use postmarketos_x00td_cellu.Hdr.Headers.{
  HdrAnswers, new_entry, give_up_slot, unlink_hdr, link_hdr, add_outside, place_hdr, add_hdr,
}
use postmarketos_x00td_cellu.Hdr.Listed.{HasHeader, IsListed, same-IsListed, joined-IsListed}
use postmarketos_x00td_cellu.Hdr.Joined.{Joined, older, joined-IsTables}
use postmarketos_x00td_cellu.Hdr.Live.{
  Live, IsTables, Remains, hdr_bin_sz-positive, shrunk-IsTables,
}

-- Why an addition is refused.
pub data Refusal (p : Platform) (a : HdrAnswers) (request : HdrAdd) (s : Tables) : Type 0 where
  no_bytes : request.hdr_len ≡ 0 → Refusal p a request s
  too_long : 60 < request.hdr_len → Refusal p a request s
  bad_l2_type : hdr_l2_max ≤ request.l2_type → Refusal p a request s
  no_object : a.own.object_ok ≡ false → Refusal p a request s
  no_offset : a.own.offset_ok ≡ false → Refusal p a request s
  no_handle : a.own.id ≡ none → Refusal p a request s
  table_full :
      (bin : ℕ)
      → hdr_bin request.hdr_len ≡ some bin
      → s.hdr_slots.free bin ≡ []
      → p.hdr_mem_size < s.hdr_slots.end_ofst + hdr_bin_sz bin
      → Refusal p a request s

-- A request that the checks let pass.
pub record IsGood (request : HdrAdd) : Type 0 where
  pub some_bytes : 0 < request.hdr_len
  pub short : request.hdr_len ≤ 60
  pub l2_type : request.l2_type < hdr_l2_max

-- The result of an addition: 0, a handle and the request's header behind it, or -EPERM, no handle and a
-- reason. Each header of before is there as it
-- was, and the list stays one of all headers.
pub record Adds (p : Platform) (a : HdrAnswers) (request : HdrAdd) (s : Tables)
    (r : Option (ℤ × Option ℕ × Tables)) : Type 0 where
  pub result : ℤ
  pub handle : Option ℕ
  pub after : Tables
  pub returns : r ≡ some (result, handle, after)
  pub valid : IsTables p.hdr_mem_size after
  pub kept : (m : ℕ) (f : HdrEntry) → Live s m f → Live after m f
  pub listing : IsListed s → IsListed after
  pub outcome :
      ((result ≡ eperm) × (handle ≡ none) × Refusal p a request s)
      ⊎ ((result ≡ pos 0)
          × (id : ℕ) × (n : ℕ) × (e : HdrEntry) × (handle ≡ some id)
          × (after.ids id ≡ some n)
          × Live after n e
          × (e.hdr_len ≡ request.hdr_len)
          × (e.hdr ≡ take request.hdr_len request.hdr)
          × IsGood request)

-- The bin that hdr_bin finds is large enough.
hdr_bin-fits : (len bin : ℕ) → hdr_bin len ≡ some bin → len ≤ hdr_bin_sz bin
unfolding hdr_bin hdr_bin_sz
hdr_bin-fits len bin e = ground arith

hdr_bin-refuses : (len : ℕ) → hdr_bin len ≡ none → 60 < len
unfolding hdr_bin hdr_bin_sz
hdr_bin-refuses len e = ground arith

hdr_bin_sz-most : (b : ℕ) → hdr_bin_sz b ≤ 60
unfolding hdr_bin_sz
hdr_bin_sz-most zero = omega arith
hdr_bin_sz-most (suc zero) = omega arith
hdr_bin_sz-most (suc (suc zero)) = omega arith
hdr_bin_sz-most (suc (suc (suc zero))) = omega arith
hdr_bin_sz-most (suc (suc (suc (suc b)))) = omega arith

module _ (p : Platform) (a : HdrAnswers) (request : HdrAdd) (s : Tables)
    (w : IsTables p.hdr_mem_size s) where
  unchanged : Refusal p a request s → Adds p a request s (some (eperm, none, s))
  unchanged why = record {
    result = eperm;
    handle = none;
    after = s;
    returns = refl;
    valid = w;
    kept = λ m f l. l;
    listing = λ v. v;
    outcome = inl (refl, refl, why);
  }

  module _ (user : Bool) (good : IsGood request) (bin : ℕ) (o : Offset) (t : Slots)
      (g : Gained hdr_bin_sz bin p.hdr_mem_size s.hdr_slots o t)
      (len : request.hdr_len ≤ hdr_bin_sz bin) where
    abbrev placed : Tables
    placed = record s { hdr_slots = t }

    abbrev entry : HdrEntry
    unfolding new_entry
    entry = new_entry request user none (some (o.offset, o.bin))

    slot : ◌≡◌ {A = Option (ℕ × ℕ)} (some (o.offset, o.bin)) (some (o.offset, bin))
    slot = rw g.same_bin refl

    abbrev put : Tables
    put = record (put_object s.fresh (hdr_entry entry) placed) {
      fresh = s.fresh + 1;
      hdr_list = s.fresh ∷ s.hdr_list;
      hdr_cnt = count_up s.hdr_cnt;
    }

    abbrev finished : ℕ → HdrEntry
    finished id = record entry { id = id; ref_cnt = 1 }

    abbrev with_handle : ℕ → Tables
    with_handle id = set_id id (some s.fresh) (put_object s.fresh (hdr_entry (finished id)) put)

    joined : (id : ℕ) → Joined s s.fresh id (finished id) (with_handle id)
    unfolding entry new_entry put_object set_id
    joined id = record {
      at_new = rw (==-refl s.fresh) refl;
      elsewhere = λ m d. rw (==-ne s.fresh m d) refl;
      new_id = rw (==-refl id) refl;
      other_ids = λ hdl d. rw (==-ne id hdl d) refl;
      next = omega arith;
      named = refl;
      in_table = refl;
    }

    linked : (id : ℕ) → a.own.id ≡ some id → Adds p a request s (link_hdr p a entry user placed)
    unfolding link_hdr entry new_entry put_object set_id
    linked id q =
        let j = joined id in
        record {
          result = pos 0;
          handle = some id;
          after = with_handle id;
          returns = rw (link_hdr, q) refl;
          valid =
              joined-IsTables p.hdr_mem_size s w id bin (finished id) o (with_handle id) j g slot
                len;
          kept = λ m f l. j.elsewhere m (older p.hdr_mem_size s w m (hdr_entry f) l) ∙ l;
          listing = λ v.
              joined-IsListed s (with_handle id) v s.fresh j.elsewhere
                (w.unborn s.fresh (omega arith)) (finished id, j.at_new) refl;
          outcome =
              inr (refl, id, s.fresh, finished id, refl, j.new_id, j.at_new, refl, refl, good);
        }

    -- Without a handle, the slot and the object are given back.
    abbrev refused : Slots → Tables
    refused t' = free_object s.fresh (record put {
      hdr_slots = t';
      hdr_list = list_del s.fresh put.hdr_list;
      hdr_cnt = count_down put.hdr_cnt;
    })

    refused-elsewhere : (t' : Slots) (m : ℕ) → s.fresh ≢ m → (refused t').object m ≡ s.object m
    unfolding put_object free_object
    refused-elsewhere t' m d = rw (==-ne s.fresh m d) refl

    refused-IsTables :
        (t' : Slots)
        → Freed hdr_bin_sz g.bins bin o.offset t t'
        → IsTables p.hdr_mem_size (refused t')
    unfolding put_object free_object
    refused-IsTables t' f =
        shrunk-IsTables p.hdr_mem_size g.bins s (refused t') w f.valid
          (omega (arith, f.same_end, g.fits)) (λ m e l. remains m e l (same_or_not s.fresh m))
          (λ m h. refused-elsewhere t' m (λ q. omega arith) ∙ w.unborn m (omega arith)) handles
      where
        remains :
            (m : ℕ) (e : HdrEntry)
            → Live (refused t') m e
            → (s.fresh ≡ m) ⊎ (s.fresh ≢ m)
            → Remains s (refused t') m e
        remains m e l (inl q) =
            let gone : (refused t').object s.fresh ≡ none = rw (==-refl s.fresh) refl in
            let here : (refused t').object m ≡ none =
              subst (λ k. (refused t').object k ≡ none) q gone in
            absurd cc
        remains m e l (inr d) = record {
          before = e;
          was = sym (refused-elsewhere t' m d) ∙ l;
          same = record { same_slot = refl; same_place = refl; same_len = refl; same_id = refl };
          still = λ x b _ h. omega (arith, f.in_use b x, g.in_use b x);
        }

        handles :
            (hdl m : ℕ)
            → s.ids hdl ≡ some m
            → (s.ids hdl ≡ some m) × ((u : Object) × ((refused t').object m ≡ some u))
        handles hdl m q =
            let (u, h) = w.handles hdl m q in
            (q, (u, refused-elsewhere t' m (older p.hdr_mem_size s w m u h) ∙ h))

    refused-IsListed : (t' : Slots) → IsListed s → IsListed (refused t')
    unfolding put_object free_object list_del
    refused-IsListed t' v =
        same-IsListed s (refused t') v (rw (list_del, ==-refl s.fresh) refl)
          (λ m h.
            (h.0, refused-elsewhere t' m (older p.hdr_mem_size s w m (hdr_entry h.0) h.1) ∙ h.1))
          (λ m h. back m h (same_or_not s.fresh m))
      where
        back : (m : ℕ) → HasHeader (refused t') m → (s.fresh ≡ m) ⊎ (s.fresh ≢ m) → HasHeader s m
        back m (e, l) (inr d) = (e, sym (refused-elsewhere t' m d) ∙ l)
        back m (e, l) (inl q) =
            let gone : (refused t').object s.fresh ≡ none = rw (==-refl s.fresh) refl in
            let here : (refused t').object m ≡ none =
              subst (λ k. (refused t').object k ≡ none) q gone in
            absurd cc

    in_use_now : 0 < times o.offset (t.used bin)
    in_use_now = ground (arith, g.in_use bin o.offset, ==-refl bin, ==-refl o.offset)

    given_back :
        (t' : Slots)
        → release o.offset bin t ≡ some t'
        → unlink_hdr s.fresh entry put ≡ some (refused t')
    unfolding unlink_hdr give_up_slot entry new_entry put_object
    given_back t' r =
        let here : release o.offset o.bin t ≡ some t' =
          subst (λ b. release o.offset b t ≡ some t') (sym g.same_bin) r in
        ap
          (λ u. do
            s1 ← (do t1 ← u; some (record put { hdr_slots = t1 }))
            some (
                free_object s.fresh (record s1 {
                  hdr_list = list_del s.fresh s1.hdr_list;
                  hdr_cnt = count_down s1.hdr_cnt;
                })))
          here

    unlinked :
        (t' : Slots)
        → release o.offset bin t ≡ some t'
        → Freed hdr_bin_sz g.bins bin o.offset t t'
        → a.own.id ≡ none
        → Adds p a request s (link_hdr p a entry user placed)
    unfolding link_hdr entry
    unlinked t' r f q = record {
      result = eperm;
      handle = none;
      after = refused t';
      returns = rw (link_hdr, q, given_back t' r) refl;
      valid = refused-IsTables t' f;
      kept = λ m e l. refused-elsewhere t' m (older p.hdr_mem_size s w m (hdr_entry e) l) ∙ l;
      listing = refused-IsListed t';
      outcome = inl (refl, refl, no_handle q);
    }

    link-Adds : Adds p a request s (link_hdr p a entry user placed)
    link-Adds =
        let (t', r, f) =
          release-Freed hdr_bin_sz hdr_bin_sz-positive g.bins t g.valid bin o.offset in_use_now in
        elim (Option-cases a.own.id) [ inl q ↦ unlinked t' r f q | inr (id, q) ↦ linked id q ]

  module _ (user : Bool) (small : p.hdr_mem_size + 60 < 4294967296)
      (older_hw : p.is_v2_5 ≡ false) where
    placed-Adds :
        IsGood request
        → (bin : ℕ) → hdr_bin request.hdr_len ≡ some bin
        → Adds p a request s (place_hdr p a request user s)
    unfolding place_hdr add_outside
    placed-Adds good bin q =
        by (reserve hdr_bin_sz bin p.hdr_mem_size user a.own.offset_ok s.hdr_slots) refl (
          reserve-Reserves hdr_bin_sz hdr_bin_sz-positive w.bins s.hdr_slots w.slots bin
            p.hdr_mem_size w.fits (omega (arith, hdr_bin_sz-most bin)) user a.own.offset_ok)
      where
        by :
            (r : Reserved)
            → reserve hdr_bin_sz bin p.hdr_mem_size user a.own.offset_ok s.hdr_slots ≡ r
            → Reserves hdr_bin_sz bin p.hdr_mem_size a.own.offset_ok s.hdr_slots r
            → Adds p a request s (place_hdr p a request user s)
        by no_room e (empty, full) =
            simp (place_hdr, q, e, add_outside, older_hw) (unchanged (table_full bin q empty full))
        by no_memory e (empty, f) = rw (place_hdr, q, e) (unchanged (no_offset f))
        by (reserved o t) e g =
            rw (place_hdr, q, e)
              (link-Adds user good bin o t g (hdr_bin-fits request.hdr_len bin q))

    placed_somewhere :
        0 < request.hdr_len
        → request.l2_type < hdr_l2_max
        → Adds p a request s (place_hdr p a request user s)
    unfolding place_hdr
    placed_somewhere some_bytes known = elim (Option-cases (hdr_bin request.hdr_len)) [
      | inl q ↦ simp (place_hdr, q) (unchanged (too_long (hdr_bin-refuses request.hdr_len q)))
      | inr (bin, q) ↦
          let fits = hdr_bin-fits request.hdr_len bin q in
          placed-Adds
            (record {
              some_bytes = some_bytes;
              short = omega (arith, fits, hdr_bin_sz-most bin);
              l2_type = known;
            })
            bin q
    ]

    -- An addition to tables of a platform before IPA v2.5 returns, and keeps them valid, each header of
    -- before as it was. Either it gives 0 and a handle, the request has from 1 to 60 bytes and a known
    -- type, and the handle leads to a header with its bytes, or it gives -EPERM and no handle, for one of
    -- the reasons that are named. The memory of the table ends below 2^32 - 60.
    pub add_hdr-Adds : Adds p a request s (add_hdr p a request user s)
    unfolding add_hdr
    add_hdr-Adds = elim (Bool-cases (request.hdr_len == 0)) [
      | inl e ↦ simp (add_hdr, e) (unchanged (no_bytes (ground arith)))
      | inr e ↦ elim (Bool-cases (ltb hdr_max_size request.hdr_len)) [
        | inl f ↦ simp (add_hdr, e, f) (unchanged (too_long (ground arith)))
        | inr f ↦ elim (Bool-cases (ltb request.l2_type hdr_l2_max)) [
          | inr g ↦ simp (add_hdr, e, f, g) (unchanged (bad_l2_type (ground arith)))
          | inl g ↦ elim (Bool-cases a.own.object_ok) [
            | inr h ↦ simp (add_hdr, e, f, g, h) (unchanged (no_object h))
            | inl h ↦ simp (add_hdr, e, f, g, h) (placed_somewhere (ground arith) (ground arith))
          ]
        ]
      ]
    ]
