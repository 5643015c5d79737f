-- ===== src/Hdr/Contexts.antt =====
-- ipa_hdr.c: a processing context is added and deleted.
use postmarketos_x00td_cellu.Common.{
  ℕ, ◌+◌, Bool, false, not, ◌&&◌, ◌||◌, Option, none, some, ◌∷◌, ltb, ◌==◌, if◌then◌else◌,
}
use postmarketos_x00td_cellu.Common.Fault.{◌>>=◌}
use postmarketos_x00td_cellu.Common.Int.{ℤ, pos, einval, eperm, enomem}
use postmarketos_x00td_cellu.Hdr.Slots.{
  Offset, Slots, no_room, no_memory, reserved, reserve, release,
}
use postmarketos_x00td_cellu.Hdr.Tables.{
  HdrEntry, CtxEntry, hdr_entry, ctx_entry, foreign, Tables, Platform, Answers, ctx_bin_sz, ctx_bin,
  needed_len, hdr_proc_max, count_up, count_down, put_object, free_object, find_object, list_del,
  set_id,
}

-- The new entry has a slot: it is linked, and gets a handle.
unfoldable pub link_ctx :
    Answers
    → ℕ
    → ℕ
    → HdrEntry
    → Bool
    → Bool
    → Offset
    → Slots
    → Tables
    → Option (ℤ × Option ℕ × Tables)
unfolding put_object set_id release
link_ctx a proc_type n e add_ref_hdr user_only o t s = elim a.id [
  | none ↦ do t1 ← release o.offset o.bin t; some (eperm, none, record s { ctx_slots = t1 })
  | some id ↦
      let entry : CtxEntry = record {
        proc_type = proc_type;
        offset_entry = (o.offset, o.bin);
        hdr = n;
        ref_cnt = 1;
        id = id;
        user_deleted = false;
        ipacm_installed = user_only;
      } in
      let e1 : HdrEntry = record e { ref_cnt = count_up e.ref_cnt } in
      let s1 = if add_ref_hdr then put_object n (hdr_entry e1) s else s in
      let s2 = put_object s.fresh (ctx_entry entry) s1 in
      some (
        pos 0,
        some id,
        record (set_id id (some s.fresh) s2) {
          fresh = s.fresh + 1;
          ctx_list = s.fresh ∷ s.ctx_list;
          ctx_slots = t;
          ctx_cnt = count_up s.ctx_cnt;
        },
      )
]

-- The header `n` was found. A failure takes the reference back.
unfoldable pub place_ctx :
    Platform → Answers → ℕ → ℕ → HdrEntry → Bool → Bool → Tables → Option (ℤ × Option ℕ × Tables)
unfolding ctx_bin ctx_bin_sz reserve link_ctx
place_ctx p a proc_type n e add_ref_hdr user_only s = elim (ctx_bin (needed_len proc_type)) [
  | none ↦ some (eperm, none, s)
  | some bin ↦ elim (reserve ctx_bin_sz bin p.ctx_mem_size user_only a.offset_ok s.ctx_slots) [
    | no_room ↦ some (eperm, none, s)
    | no_memory ↦ some (eperm, none, s)
    | reserved o t ↦ link_ctx a proc_type n e add_ref_hdr user_only o t s
  ]
]

-- The result, the handle and the tables.
unfoldable pub add_hdr_proc_ctx :
    Platform → Answers → ℕ → ℕ → Bool → Bool → Tables → Option (ℤ × Option ℕ × Tables)
unfolding find_object place_ctx
add_hdr_proc_ctx p a proc_type hdr_hdl add_ref_hdr user_only s =
    if not (ltb proc_type hdr_proc_max) then some (einval, none, s) else do
      found ← find_object hdr_hdl s
      elim found [
        | none ↦ some (einval, none, s)
        | some (n, o) ↦ elim o [
          | ctx_entry _ ↦ some (einval, none, s)
          | foreign ↦ some (einval, none, s)
          | hdr_entry e ↦
              if not a.object_ok
              then some (enomem, none, s)
              else place_ctx p a proc_type n e add_ref_hdr user_only s
        ]
      ]

-- The last reference is gone.
unfoldable pub drop_ctx : ℕ → ℕ → CtxEntry → Tables → Option Tables
unfolding release list_del free_object set_id
drop_ctx hdl n e s = do
  let (x, bin) = e.offset_entry
  t ← release x bin s.ctx_slots
  let s1 = record s {
    ctx_slots = t;
    ctx_list = list_del n s.ctx_list;
    ctx_cnt = count_down s.ctx_cnt;
  }
  some (set_id hdl none (free_object n s1))

-- `release_hdr` drops the reference to the header, if the caller wants it.
unfoldable pub del_ctx_entry :
    (ℕ → Tables → Option Tables) → ℕ → Bool → ℕ → CtxEntry → Tables → Option (ℤ × Tables)
unfolding put_object drop_ctx
del_ctx_entry release_hdr hdl by_user n e s =
    let left = count_down e.ref_cnt in
    let e1 : CtxEntry = record e { user_deleted = e.user_deleted || by_user; ref_cnt = left } in
    let s1 = put_object n (ctx_entry e1) s in
    if by_user && e.user_deleted
    then some (einval, s)
    else if not (left == 0)
    then some (pos 0, s1)
    else do s2 ← release_hdr e.hdr s1; s3 ← drop_ctx hdl n e s2; some (pos 0, s3)

unfoldable pub del_ctx_with : (ℕ → Tables → Option Tables) → ℕ → Bool → Tables → Option (ℤ × Tables)
unfolding find_object del_ctx_entry
del_ctx_with release_hdr hdl by_user s = do
  found ← find_object hdl s
  elim found [
    | none ↦ some (einval, s)
    | some (n, o) ↦ elim o [
      | hdr_entry _ ↦ some (einval, s)
      | foreign ↦ some (einval, s)
      | ctx_entry e ↦ del_ctx_entry release_hdr hdl by_user n e s
    ]
  ]
