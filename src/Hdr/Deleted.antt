-- ===== src/Hdr/Deleted.antt =====
-- ipa_hdr.c: a deletion of a header, from tables where every header has a slot.
use postmarketos_x00td_cellu.Common.{
  ℕ, ◌≡◌, refl, sym, ap, subst, ◌∙◌, ◌⊎◌, inl, inr, Bool, true, false, not, ◌&&◌, Option, some,
  Bool-cases, ◌==◌, if◌then◌else◌, arith,
}
use postmarketos_x00td_cellu.Common.Fault.{◌>>=◌, >>=-some}
use postmarketos_x00td_cellu.Common.Int.{ℤ, pos, einval, eperm}
use postmarketos_x00td_cellu.Hdr.Tables.{
  HdrEntry, hdr_entry, Tables, lan_rx_hdr_name, same_name, count_down, find_object,
}
use postmarketos_x00td_cellu.Hdr.Headers.{drop_hdr, is_default, del_hdr_entry, del_hdr}
use postmarketos_x00td_cellu.Hdr.Live.{Owns, Live, IsTables}
use postmarketos_x00td_cellu.Hdr.Dropped.{
  less, deleted_once, Allowed, deleted_before, default_hdr, Deletes, refused-Deletes,
  referred-Deletes,
}

module _ (mem_size : ℕ) (s : Tables) (w : IsTables mem_size s) (hdl n : ℕ) (e : HdrEntry)
    (led : s.ids hdl ≡ some n) (live : Live s n e) (by_user : Bool) where
  not_default :
      by_user && same_name e.name lan_rx_hdr_name ≡ false → is_default by_user e ≡ some false
  unfolding is_default
  not_default q = rw q refl

  maybe_default :
      (x b : ℕ)
      → e.offset_entry ≡ some (x, b)
      → by_user && same_name e.name lan_rx_hdr_name ≡ true
      → is_default by_user e ≡ some (x == 0)
  unfolding is_default
  maybe_default x b slot q =
      ap (λ (t : Bool). if t then (do y ← e.offset_entry; some (y.0 == 0)) else some false) q
      ∙ >>=-some (λ (y : ℕ × ℕ). some (y.0 == 0)) slot

  abbrev after_default : Bool → Option (ℤ × Tables)
  after_default d =
      if d
      then some (eperm, s)
      else if not (count_down e.ref_cnt == 0)
      then some (pos 0, less mem_size s w hdl n e led live by_user)
      else (do
        s2 ← drop_hdr hdl n (deleted_once by_user e) (less mem_size s w hdl n e led live by_user)
        some (pos 0, s2))

  by_name-Allowed :
      by_user && e.user_deleted ≡ false
      → by_user && same_name e.name lan_rx_hdr_name ≡ false
      → Allowed by_user e
  by_name-Allowed once q = record {
    not_before = λ (a, b). ground arith;
    not_default = λ (a, (b, _, _)). ground arith;
  }

  by_place-Allowed :
      (x b : ℕ)
      → e.offset_entry ≡ some (x, b)
      → by_user && e.user_deleted ≡ false
      → (x == 0) ≡ false
      → Allowed by_user e
  by_place-Allowed x b slot once q = record {
    not_before = λ (a, b). ground arith;
    not_default = λ (a, (_, c, at_zero)).
        let same : ◌≡◌ {A = Option (ℕ × ℕ)} (some (x, b)) (some (0, c)) = sym slot ∙ at_zero in
        let zero_x : x ≡ 0 = ground arith in ground arith;
  }

  allowed-Deletes :
      (u : Owns s.hdr_slots e)
      → by_user && e.user_deleted ≡ false
      → Deletes mem_size s hdl n by_user e (is_default by_user e >>= after_default)
  allowed-Deletes u once = elim (Bool-cases (by_user && same_name e.name lan_rx_hdr_name)) [
    | inr q ↦
        subst (Deletes mem_size s hdl n by_user e) (sym (>>=-some after_default (not_default q)))
          (referred-Deletes mem_size s w hdl n e led live by_user (by_name-Allowed once q))
    | inl q ↦
        subst (Deletes mem_size s hdl n by_user e)
          (sym (>>=-some after_default (maybe_default u.x u.bin u.in_slot q)))
          (by (Bool-cases (u.x == 0)) q)
  ]
    where
      by :
          ((u.x == 0) ≡ true) ⊎ ((u.x == 0) ≡ false)
          → by_user && same_name e.name lan_rx_hdr_name ≡ true
          → Deletes mem_size s hdl n by_user e (after_default (u.x == 0))
      by (inr z) q = rw z (
          referred-Deletes mem_size s w hdl n e led live by_user
            (by_place-Allowed u.x u.bin u.in_slot once z))
      by (inl z) q =
          let at_zero : u.x ≡ 0 = ground arith in
          rw z (
            refused-Deletes mem_size s w hdl n e led live by_user eperm (
              default_hdr (ground arith) (ground (arith, q, once))
                (
                  ground arith,
                  u.bin,
                  subst (λ x. e.offset_entry ≡ some (x, u.bin)) at_zero u.in_slot,
                )
                refl))

  entry-Deletes : Deletes mem_size s hdl n by_user e (del_hdr_entry hdl by_user n e s)
  unfolding del_hdr_entry
  entry-Deletes = elim (Bool-cases (by_user && e.user_deleted)) [
    | inl q ↦ rw q (
        refused-Deletes mem_size s w hdl n e led live by_user einval
          (deleted_before (ground arith) (ground arith) refl))
    | inr q ↦ rw q (allowed-Deletes (w.owns n e live) q)
  ]

  found : find_object hdl s ≡ some (some (n, hdr_entry e))
  unfolding find_object
  found = rw (find_object, led, live) refl

  -- A deletion of a header by its handle returns, keeps valid tables valid and every other header as it
  -- was. A user is refused with -EINVAL where a user deleted the header before, and with -EPERM for
  -- the default header at offset 0. Otherwise the result is 0: the header has one reference less, and
  -- after the last one the header, its handle and its use of the slot are gone.
  pub del_hdr-Deletes : Deletes mem_size s hdl n by_user e (del_hdr hdl by_user s)
  unfolding del_hdr
  del_hdr-Deletes = rw (del_hdr, found) entry-Deletes
