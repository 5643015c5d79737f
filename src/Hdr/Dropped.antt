-- ===== src/Hdr/Dropped.antt =====
-- ipa_hdr.c: the two ends of a deletion, with references left and without.
use postmarketos_x00td_cellu.Common.{
  ℕ, ◌≤◌, ◌<◌, ◌≡◌, ◌≢◌, refl, sym, ap, subst, ◌∙◌, ◌⊎◌, inl, inr, Bool, true, false, not, ◌||◌,
  Option, none, some, ◌∷◌, Bool-cases, ◌==◌, ==-refl, ==-ne, if◌then◌else◌, arith,
}
use postmarketos_x00td_cellu.Common.Fault.{◌>>=◌, >>=-some}
use postmarketos_x00td_cellu.Common.Int.{ℤ, pos, einval, eperm}
use postmarketos_x00td_cellu.Hdr.Slots.{Slots, release}
use postmarketos_x00td_cellu.Hdr.Apart.{times, same_or_not, one_at, one_at-cases}
use postmarketos_x00td_cellu.Hdr.Reserve.{Freed, release-Freed}
use postmarketos_x00td_cellu.Hdr.Tables.{
  HdrEntry, Object, hdr_entry, unmap_single, Tables, hdr_bin_sz, lan_rx_hdr_name, same_name,
  count_down, put_object, free_object, list_del, set_id,
}
use postmarketos_x00td_cellu.Hdr.Headers.{give_up_slot, del_own_ctx, drop_hdr}
use postmarketos_x00td_cellu.Hdr.Live.{
  Owns, Live, IsTables, Remains, hdr_bin_sz-positive, shrunk-IsTables,
}
use postmarketos_x00td_cellu.Hdr.Listed.{HasHeader, IsListed, same-IsListed, removed-IsListed}

-- The header after one deletion more.
abbrev pub deleted_once : Bool → HdrEntry → HdrEntry
deleted_once by_user e = record e {
  user_deleted = e.user_deleted || by_user;
  ref_cnt = count_down e.ref_cnt;
}

-- The header that no user may delete: by its name, at the start of the table.
abbrev pub IsDefault : HdrEntry → Type 0
IsDefault e = (same_name e.name lan_rx_hdr_name ≡ true) × (b : ℕ) × (e.offset_entry ≡ some (0, b))

-- No user has deleted the header before, and it is not the default one, if it is a user who deletes it.
pub record Allowed (by_user : Bool) (e : HdrEntry) : Type 0 where
  pub not_before : ¬ ((by_user ≡ true) × (e.user_deleted ≡ true))
  pub not_default : ¬ ((by_user ≡ true) × IsDefault e)

-- What a deletion of the header `e` at `n` by its handle does: a user may delete it once only and the
-- default header never, a reference that is not the last one is dropped, and with the last one the
-- header, its handle and its use of the slot go.
pub data Deletion (s : Tables) (hdl n : ℕ) (by_user : Bool) (e : HdrEntry) (s' : Tables)
    : ℤ → Type 0 where
  deleted_before :
      by_user ≡ true → e.user_deleted ≡ true → s' ≡ s → Deletion s hdl n by_user e s' einval
  default_hdr :
      by_user ≡ true
      → e.user_deleted ≡ false
      → IsDefault e
      → s' ≡ s
      → Deletion s hdl n by_user e s' eperm
  fewer :
      Allowed by_user e
      → count_down e.ref_cnt ≢ 0
      → Live s' n (deleted_once by_user e)
      → Deletion s hdl n by_user e s' (pos 0)
  gone :
      Allowed by_user e
      → count_down e.ref_cnt ≡ 0
      → s'.object n ≡ none
      → s'.ids hdl ≡ none
      → ((x b : ℕ) → e.offset_entry ≡ some (x, b) → times x (s'.hdr_slots.used b) ≡ 0)
      → Deletion s hdl n by_user e s' (pos 0)

pub record Deletes (mem_size : ℕ) (s : Tables) (hdl n : ℕ) (by_user : Bool) (e : HdrEntry)
    (r : Option (ℤ × Tables)) : Type 0 where
  pub result : ℤ
  pub after : Tables
  pub returns : r ≡ some (result, after)
  pub valid : IsTables mem_size after
  pub others : (m : ℕ) (f : HdrEntry) → n ≢ m → Live s m f → Live after m f
  pub listing : IsListed s → IsListed after
  pub outcome : Deletion s hdl n by_user e after result

module _ (mem_size : ℕ) (s : Tables) (w : IsTables mem_size s) (hdl n : ℕ) (e : HdrEntry)
    (led : s.ids hdl ≡ some n) (live : Live s n e) (by_user : Bool) where
  abbrev pub less : Tables
  less = put_object n (hdr_entry (deleted_once by_user e)) s

  less-elsewhere : (m : ℕ) → n ≢ m → less.object m ≡ s.object m
  unfolding put_object
  less-elsewhere m d = rw (==-ne n m d) refl

  less-here : less.object n ≡ some (hdr_entry (deleted_once by_user e))
  unfolding put_object
  less-here = rw (==-refl n) refl

  -- A header that stays where it is.
  stays :
      (s' : Tables) (m : ℕ) (f : HdrEntry)
      → ((x b : ℕ)
          → f.offset_entry ≡ some (x, b)
          → 0 < times x (s.hdr_slots.used b)
          → 0 < times x (s'.hdr_slots.used b))
      → Live s m f
      → Remains s s' m f
  stays s' m f still l = record {
    before = f;
    was = l;
    same = record { same_slot = refl; same_place = refl; same_len = refl; same_id = refl };
    still = still;
  }

  less-IsTables : IsTables mem_size less
  unfolding put_object
  less-IsTables =
      shrunk-IsTables mem_size w.bins s less w w.slots w.fits
        (λ m f l. remains m f l (same_or_not n m))
        (λ m h. less-elsewhere m (λ q. young m h q) ∙ w.unborn m h)
        (λ h m q. (q, handles m (w.handles h m q) (same_or_not n m)))
    where
      remains : (m : ℕ) (f : HdrEntry) → Live less m f → (n ≡ m) ⊎ (n ≢ m) → Remains s less m f
      remains m f l (inr d) = stays less m f (λ x b _ h. h) (sym (less-elsewhere m d) ∙ l)
      remains m f l (inl q) =
          let there : less.object m ≡ some (hdr_entry (deleted_once by_user e)) =
            subst (λ k. less.object k ≡ some (hdr_entry (deleted_once by_user e))) q less-here in
          let same : deleted_once by_user e ≡ f = ground arith in
          subst (Remains s less m) same (record {
            before = e;
            was = subst (λ k. Live s k e) q live;
            same = record { same_slot = refl; same_place = refl; same_len = refl; same_id = refl };
            still = λ x b _ h. h;
          })

      young : (m : ℕ) → s.fresh ≤ m → n ≢ m
      young m h q =
          let none_here : s.object n ≡ none =
            subst (λ k. s.object k ≡ none) (sym q) (w.unborn m h) in
          cc

      handles :
          (m : ℕ)
          → (o : Object) × (s.object m ≡ some o)
          → (n ≡ m) ⊎ (n ≢ m)
          → (o : Object) × (less.object m ≡ some o)
      handles m (o, q) (inl h) = (
        hdr_entry (deleted_once by_user e),
        subst (λ k. less.object k ≡ some (hdr_entry (deleted_once by_user e))) h less-here,
      )
      handles m (o, q) (inr d) = (o, less-elsewhere m d ∙ q)

  abbrev without : Slots → Tables
  without t' = set_id hdl none (
      free_object n (record less {
        hdr_slots = t';
        hdr_list = list_del n s.hdr_list;
        hdr_cnt = count_down s.hdr_cnt;
      }))

  without-elsewhere : (t' : Slots) (m : ℕ) → n ≢ m → (without t').object m ≡ s.object m
  unfolding put_object free_object set_id
  without-elsewhere t' m d = rw (==-ne n m d) refl

  without-list : (t' : Slots) → (without t').hdr_list ≡ list_del n s.hdr_list
  unfolding put_object free_object set_id
  without-list t' = refl

  less-IsListed : IsListed s → IsListed less
  unfolding put_object
  less-IsListed v =
      same-IsListed s less v refl (λ m h. there m h (same_or_not n m))
        (λ m h. back m h (same_or_not n m))
    where
      there : (m : ℕ) → HasHeader s m → (n ≡ m) ⊎ (n ≢ m) → HasHeader less m
      there m h (inl q) = subst (HasHeader less) q (deleted_once by_user e, less-here)
      there m (f, l) (inr d) = (f, less-elsewhere m d ∙ l)

      back : (m : ℕ) → HasHeader less m → (n ≡ m) ⊎ (n ≢ m) → HasHeader s m
      back m h (inl q) = subst (HasHeader s) q (e, live)
      back m (f, l) (inr d) = (f, sym (less-elsewhere m d) ∙ l)

  without-here : (t' : Slots) → (without t').object n ≡ none
  unfolding put_object free_object set_id
  without-here t' = rw (==-refl n) refl

  without-handle : (t' : Slots) → (without t').ids hdl ≡ none
  unfolding put_object free_object set_id
  without-handle t' = rw (==-refl hdl) refl

  module _ (o : Owns s.hdr_slots e) (t' : Slots)
      (g : Freed hdr_bin_sz w.bins o.bin o.x s.hdr_slots t') where
    without-IsTables : IsTables mem_size (without t')
    unfolding put_object free_object set_id
    without-IsTables =
        shrunk-IsTables mem_size w.bins s (without t') w g.valid (omega (arith, g.same_end, w.fits))
          (λ m f l. remains m f l (same_or_not n m)) (λ m h. unborn m h (same_or_not n m))
          (λ h m q. handles h m q (same_or_not hdl h))
      where
        remains :
            (m : ℕ) (f : HdrEntry)
            → Live (without t') m f
            → (n ≡ m) ⊎ (n ≢ m)
            → Remains s (without t') m f
        remains m f l (inl q) =
            let here : (without t').object m ≡ none =
              subst (λ k. (without t').object k ≡ none) q (without-here t') in
            absurd cc
        remains m f l (inr d) =
            let was : Live s m f = sym (without-elsewhere t' m d) ∙ l in
            stays (without t') m f (λ x b slot h. still was x b slot h (one_at-cases o.bin o.x b x))
              was
          where
            still :
                Live s m f
                → (x b : ℕ) → f.offset_entry ≡ some (x, b)
                → 0 < times x (s.hdr_slots.used b)
                → (one_at o.bin o.x b x ≡ 0)
                  ⊎ ((o.bin ≡ b) × (o.x ≡ x) × (one_at o.bin o.x b x ≡ 1))
                → 0 < times x (t'.used b)
            still was x b slot h (inl z) = omega (arith, g.in_use b x)
            still was x b slot h (inr (p, q, _)) =
                let same : some (o.x, o.bin) ≡ some (x, b) = rw (p, q) refl in
                absurd (d (w.distinct n m e f live was (o.in_slot ∙ same ∙ sym slot)))

        unborn : (m : ℕ) → s.fresh ≤ m → (n ≡ m) ⊎ (n ≢ m) → (without t').object m ≡ none
        unborn m h (inl q) = subst (λ k. (without t').object k ≡ none) q (without-here t')
        unborn m h (inr d) = without-elsewhere t' m d ∙ w.unborn m h

        handles :
            (h m : ℕ)
            → (without t').ids h ≡ some m
            → (hdl ≡ h) ⊎ (hdl ≢ h)
            → (s.ids h ≡ some m) × ((u : Object) × ((without t').object m ≡ some u))
        handles h m q (inl x) =
            let cut : (without t').ids h ≡ none =
              subst (λ k. (without t').ids k ≡ none) x (without-handle t') in
            absurd cc
        handles h m q (inr d) =
            let was : s.ids h ≡ some m = sym (other_id h d) ∙ q in
            let (u, p) = w.handles h m was in (was, (u, without-elsewhere t' m (another was) ∙ p))
          where
            other_id : (h : ℕ) → hdl ≢ h → (without t').ids h ≡ s.ids h
            other_id h d = rw (==-ne hdl h d) refl

            another : s.ids h ≡ some m → n ≢ m
            another was q = d (
                sym (w.known hdl n e led live)
                ∙ w.known h n e (subst (λ k. s.ids h ≡ some k) (sym q) was) live)

    abbrev unlinked : Tables → Tables
    unlinked s1 = set_id hdl none (
        free_object n
          (record s1 { hdr_list = list_del n s1.hdr_list; hdr_cnt = count_down s1.hdr_cnt }))

    module _ (r : release o.x o.bin s.hdr_slots ≡ some t') where
      given_up : give_up_slot (deleted_once by_user e) less ≡ some (record less { hdr_slots = t' })
      unfolding give_up_slot put_object
      given_up =
          >>=-some
            (λ (y : ℕ × ℕ). do
              t1 ← release y.0 y.1 s.hdr_slots
              some (record less { hdr_slots = t1 }))
            o.in_slot
          ∙ >>=-some (λ t1. some (record less { hdr_slots = t1 })) r

      dropped : drop_hdr hdl n (deleted_once by_user e) less ≡ some (without t')
      unfolding drop_hdr put_object free_object set_id
      dropped =
          ap
            (λ (b : Bool). do
              s1 ←
                  if b
                  then del_own_ctx (deleted_once by_user e)
                      (record less { dma = unmap_single e.phys_base ∷ less.dma })
                  else give_up_slot (deleted_once by_user e) less
              some (unlinked s1))
            o.in_table
          ∙ >>=-some (λ s1. some (unlinked s1)) given_up

      without-gone :
          (x b : ℕ) → e.offset_entry ≡ some (x, b) → times x ((without t').hdr_slots.used b) ≡ 0
      unfolding free_object set_id
      without-gone x b slot =
          let same : ◌≡◌ {A = Option (ℕ × ℕ)} (some (o.x, o.bin)) (some (x, b)) =
            sym o.in_slot ∙ slot in
          let at_x : o.x ≡ x = ground arith in
          let at_bin : o.bin ≡ b = ground arith in
          subst (λ y. times y (t'.used b) ≡ 0) at_x
            (subst (λ c. times o.x (t'.used c) ≡ 0) at_bin g.unused)

      gone-Deletes :
          Allowed by_user e
          → count_down e.ref_cnt ≡ 0
          → Deletes mem_size s hdl n by_user e (some (pos 0, without t'))
      gone-Deletes ok z = record {
        result = pos 0;
        after = without t';
        returns = refl;
        valid = without-IsTables;
        others = λ m f d l. without-elsewhere t' m d ∙ l;
        listing = λ v.
            removed-IsListed s (without t') v n (without-elsewhere t') (e, live) (without-here t')
              (without-list t');
        outcome = gone ok z (without-here t') (without-handle t') without-gone;
      }

  fewer-Deletes :
      Allowed by_user e
      → count_down e.ref_cnt ≢ 0
      → Deletes mem_size s hdl n by_user e (some (pos 0, less))
  fewer-Deletes ok z = record {
    result = pos 0;
    after = less;
    returns = refl;
    valid = less-IsTables;
    others = λ m f d l. less-elsewhere m d ∙ l;
    listing = less-IsListed;
    outcome = fewer ok z less-here;
  }

  pub refused-Deletes :
      (result : ℤ)
      → Deletion s hdl n by_user e s result
      → Deletes mem_size s hdl n by_user e (some (result, s))
  refused-Deletes result why = record {
    result = result;
    after = s;
    returns = refl;
    valid = w;
    others = λ m f d l. l;
    listing = λ v. v;
    outcome = why;
  }

  last-Deletes :
      Allowed by_user e
      → (z : count_down e.ref_cnt ≡ 0)
      → Deletes mem_size s hdl n by_user e
          (do s2 ← drop_hdr hdl n (deleted_once by_user e) less; some (pos 0, s2))
  last-Deletes ok z =
      let o = w.owns n e live in
      let (t', r, g) =
        release-Freed hdr_bin_sz hdr_bin_sz-positive w.bins s.hdr_slots w.slots o.bin o.x
          o.in_use in
      subst (Deletes mem_size s hdl n by_user e)
        (sym (>>=-some (λ s2. some (pos 0, s2)) (dropped o t' g r))) (gone-Deletes o t' g r ok z)

  pub referred-Deletes :
      Allowed by_user e
      → Deletes mem_size s hdl n by_user e (
          if not (count_down e.ref_cnt == 0)
          then some (pos 0, less)
          else (do s2 ← drop_hdr hdl n (deleted_once by_user e) less; some (pos 0, s2)))
  referred-Deletes ok = elim (Bool-cases (count_down e.ref_cnt == 0)) [
    | inl z ↦ simp z (last-Deletes ok (ground arith))
    | inr z ↦ simp z (fewer-Deletes ok (ground arith))
  ]
