-- ===== src/Hdr/Headers.antt =====
-- ipa_hdr.c: a header is added and deleted. A header that does not fit into the table stays in the memory
-- of the system, on IPA v2.5, with a processing context of its own.
use postmarketos_x00td_cellu.Common.{
  ℕ, ◌+◌, ◌-◌, Bool, true, false, not, ◌&&◌, ◌||◌, Option, none, some, ◌∷◌, take, ltb, ◌==◌,
  if◌then◌else◌,
}
use postmarketos_x00td_cellu.Common.Fault.{◌>>=◌}
use postmarketos_x00td_cellu.Common.Int.{ℤ, pos, is_zero, einval, eperm}
use postmarketos_x00td_cellu.Hdr.Slots.{no_room, no_memory, reserved, reserve, release}
use postmarketos_x00td_cellu.Hdr.Tables.{
  HdrAdd, HdrEntry, hdr_entry, ctx_entry, foreign, map_single, unmap_single, Tables, Platform,
  Answers, hdr_bin_sz, hdr_bin, hdr_l2_max, hdr_max_size, resource_name_max, lan_rx_hdr_name,
  same_name, count_up, count_down, put_object, free_object, find_object, list_del, set_id,
}
use postmarketos_x00td_cellu.Hdr.Contexts.{add_hdr_proc_ctx, del_ctx_with}

-- The answers for a header, for the DMA mapping of one outside the table (none is an error), and for its
-- processing context.
pub record HdrAnswers : Type 0 where
  pub own : Answers
  pub mapped : Option ℕ
  pub ctx : Answers

-- The new entry, before it has a handle. strlcpy cuts the name.
unfoldable pub new_entry : HdrAdd → Bool → Option ℕ → Option (ℕ × ℕ) → HdrEntry
new_entry a user phys offset = record {
  hdr = take a.hdr_len a.hdr;
  hdr_len = a.hdr_len;
  name = take (resource_name_max - 1) a.name;
  l2_type = a.l2_type;
  is_partial = a.is_partial;
  is_hdr_proc_ctx = elim phys [ none ↦ false | some addr ↦ true ];
  phys_base = elim phys [ none ↦ 0 | some addr ↦ addr ];
  proc_ctx = none;
  offset_entry = offset;
  ref_cnt = 0;
  id = 0;
  is_eth2_ofst_valid = a.is_eth2_ofst_valid;
  eth2_ofst = a.eth2_ofst;
  user_deleted = false;
  ipacm_installed = user;
}

-- The entry leaves its memory or its slot, the list and the heap.
unfoldable pub give_up_slot : HdrEntry → Tables → Option Tables
unfolding release
give_up_slot e s = do
  (x, bin) ← e.offset_entry
  t ← release x bin s.hdr_slots
  some (record s { hdr_slots = t })

unfoldable pub unlink_hdr : ℕ → HdrEntry → Tables → Option Tables
unfolding give_up_slot list_del free_object
unlink_hdr n e s = do
  s1 ←
      if e.is_hdr_proc_ctx
      then some (record s { dma = unmap_single e.phys_base ∷ s.dma })
      else give_up_slot e s
  some (
      free_object n
        (record s1 { hdr_list = list_del n s1.hdr_list; hdr_cnt = count_down s1.hdr_cnt }))

-- A header outside the table gets its processing context, or is given up.
unfoldable pub add_own_ctx :
    Platform → HdrAnswers → ℕ → ℕ → HdrEntry → Bool → Tables → Option (ℤ × Option ℕ × Tables)
unfolding add_hdr_proc_ctx set_id unlink_hdr put_object
add_own_ctx p a id n e user s = do
  (result, ctx_hdl, s1) ← add_hdr_proc_ctx p a.ctx 0 id false user s
  if is_zero result
      then (do
        hdl ← ctx_hdl
        some (pos 0, some id, put_object n (hdr_entry (record e { proc_ctx = s1.ids hdl })) s1))
      else (do s2 ← unlink_hdr n e (set_id id none s1); some (eperm, none, s2))

-- The entry is linked, and gets a handle.
unfoldable pub link_hdr :
    Platform → HdrAnswers → HdrEntry → Bool → Tables → Option (ℤ × Option ℕ × Tables)
unfolding put_object set_id unlink_hdr add_own_ctx
link_hdr p a e user s =
    let n = s.fresh in
    let s1 = record (put_object n (hdr_entry e) s) {
      fresh = n + 1;
      hdr_list = n ∷ s.hdr_list;
      hdr_cnt = count_up s.hdr_cnt;
    } in
    elim a.own.id [
      | none ↦ do s2 ← unlink_hdr n e s1; some (eperm, none, s2)
      | some id ↦
          let e1 : HdrEntry = record e { id = id; ref_cnt = 1 } in
          let s2 = set_id id (some n) (put_object n (hdr_entry e1) s1) in
          if e.is_hdr_proc_ctx then add_own_ctx p a id n e1 user s2 else some (pos 0, some id, s2)
    ]

-- No slot is left: on IPA v2.5 the header is mapped where it stands.
unfoldable pub add_outside :
    Platform → HdrAnswers → HdrAdd → Bool → Tables → Option (ℤ × Option ℕ × Tables)
unfolding new_entry link_hdr
add_outside p a request user s = if not p.is_v2_5 then some (eperm, none, s) else elim a.mapped [
  | none ↦ some (eperm, none, s)
  | some addr ↦
      link_hdr p a (new_entry request user (some addr) none) user
        (record s { dma = map_single addr ∷ s.dma })
]

unfoldable pub place_hdr :
    Platform → HdrAnswers → HdrAdd → Bool → Tables → Option (ℤ × Option ℕ × Tables)
unfolding hdr_bin hdr_bin_sz reserve new_entry link_hdr add_outside
place_hdr p a request user s = elim (hdr_bin request.hdr_len) [
  | none ↦ some (eperm, none, s)
  | some bin ↦ elim (reserve hdr_bin_sz bin p.hdr_mem_size user a.own.offset_ok s.hdr_slots) [
    | no_room ↦ add_outside p a request user s
    | no_memory ↦ some (eperm, none, s)
    | reserved o t ↦
        link_hdr p a (new_entry request user none (some (o.offset, o.bin))) user
          (record s { hdr_slots = t })
  ]
]

-- __ipa_add_hdr: the result, the handle and the tables.
unfoldable pub add_hdr :
    Platform → HdrAnswers → HdrAdd → Bool → Tables → Option (ℤ × Option ℕ × Tables)
unfolding place_hdr
add_hdr p a request user s =
    if (request.hdr_len == 0) || ltb hdr_max_size request.hdr_len
    then some (eperm, none, s)
    else if not (ltb request.l2_type hdr_l2_max)
    then some (eperm, none, s)
    else if not a.own.object_ok
    then some (eperm, none, s)
    else place_hdr p a request user s

-- The processing context of a header outside the table is deleted by its own handle.
unfoldable pub del_own_ctx : HdrEntry → Tables → Option Tables
unfolding del_ctx_with
del_own_ctx e s = do
  n ← e.proc_ctx
  o ← s.object n
  elim o [
    | hdr_entry _ ↦ none
    | foreign ↦ none
    | ctx_entry c ↦ do (result, s1) ← del_ctx_with (λ h u. some u) c.id false s; some s1
  ]

-- The last reference is gone.
unfoldable pub drop_hdr : ℕ → ℕ → HdrEntry → Tables → Option Tables
unfolding del_own_ctx give_up_slot list_del free_object set_id
drop_hdr hdl n e s = do
  s1 ←
      if e.is_hdr_proc_ctx
      then del_own_ctx e (record s { dma = unmap_single e.phys_base ∷ s.dma })
      else give_up_slot e s
  some (
      set_id hdl none (
        free_object n
          (record s1 { hdr_list = list_del n s1.hdr_list; hdr_cnt = count_down s1.hdr_cnt })))

-- Whether a user tries to delete the default header; the slot is read for its name only.
unfoldable pub is_default : Bool → HdrEntry → Option Bool
unfolding lan_rx_hdr_name same_name
is_default by_user e =
    if by_user && same_name e.name lan_rx_hdr_name
    then (do (x, bin) ← e.offset_entry; some (x == 0))
    else some false

unfoldable pub del_hdr_entry : ℕ → Bool → ℕ → HdrEntry → Tables → Option (ℤ × Tables)
unfolding is_default put_object drop_hdr
del_hdr_entry hdl by_user n e s =
    let left = count_down e.ref_cnt in
    let e1 : HdrEntry = record e { user_deleted = e.user_deleted || by_user; ref_cnt = left } in
    let s1 = put_object n (hdr_entry e1) s in
    if by_user && e.user_deleted then some (einval, s) else do
      default_hdr ← is_default by_user e
      if default_hdr
          then some (eperm, s)
          else if not (left == 0)
          then some (pos 0, s1)
          else (do s2 ← drop_hdr hdl n e s1; some (pos 0, s2))

-- __ipa_del_hdr
unfoldable pub del_hdr : ℕ → Bool → Tables → Option (ℤ × Tables)
unfolding find_object del_hdr_entry
del_hdr hdl by_user s = do
  found ← find_object hdl s
  elim found [
    | none ↦ some (einval, s)
    | some (n, o) ↦ elim o [
      | ctx_entry _ ↦ some (einval, s)
      | foreign ↦ some (einval, s)
      | hdr_entry e ↦ del_hdr_entry hdl by_user n e s
    ]
  ]

-- The reference that a processing context holds.
unfoldable pub drop_reference : ℕ → Tables → Option Tables
unfolding del_hdr
drop_reference n s = do
  o ← s.object n
  elim o [
    | ctx_entry _ ↦ none
    | foreign ↦ none
    | hdr_entry e ↦ do (result, s1) ← del_hdr e.id false s; some s1
  ]

-- __ipa_del_hdr_proc_ctx
unfoldable pub del_hdr_proc_ctx : ℕ → Bool → Bool → Tables → Option (ℤ × Tables)
unfolding del_ctx_with drop_reference
del_hdr_proc_ctx hdl release_hdr by_user s =
    if release_hdr
    then del_ctx_with drop_reference hdl by_user s
    else del_ctx_with (λ h u. some u) hdl by_user s
