-- ===== src/Hdr/Tables.antt =====
-- ipa_hdr.c: the entries of the tables of headers and of processing contexts, on a heap of objects that
-- pointers and handles lead to. The allocations, the handles that the IDR gives and the DMA addresses
-- are arguments. An object that was freed is no longer in the heap.
use postmarketos_x00td_cellu.Common.{
  ℕ, zero, suc, ◌+◌, ◌%◌, Bool, true, false, ◌&&◌, Option, none, some, List, [], ◌∷◌, update, leb,
  ◌==◌, if◌then◌else◌,
}
use postmarketos_x00td_cellu.Common.Fault.{◌>>=◌}
use postmarketos_x00td_cellu.Common.Text.{codes}
use postmarketos_x00td_cellu.Hdr.Slots.{Slots}

-- struct ipa_hdr_add, as the caller fills it in; `hdr` is the array.
pub record HdrAdd : Type 0 where
  pub name : List ℕ
  pub hdr : List ℕ
  pub hdr_len : ℕ
  pub l2_type : ℕ
  pub is_partial : ℕ
  pub is_eth2_ofst_valid : ℕ
  pub eth2_ofst : ℕ

-- `offset_entry` is the offset and the bin of the slot.
pub record HdrEntry : Type 0 where
  pub hdr : List ℕ
  pub hdr_len : ℕ
  pub name : List ℕ
  pub l2_type : ℕ
  pub is_partial : ℕ
  pub is_hdr_proc_ctx : Bool
  pub phys_base : ℕ
  pub proc_ctx : Option ℕ
  pub offset_entry : Option (ℕ × ℕ)
  pub ref_cnt : ℕ
  pub id : ℕ
  pub is_eth2_ofst_valid : ℕ
  pub eth2_ofst : ℕ
  pub user_deleted : Bool
  pub ipacm_installed : Bool

pub record CtxEntry : Type 0 where
  pub proc_type : ℕ
  pub offset_entry : ℕ × ℕ
  pub hdr : ℕ
  pub ref_cnt : ℕ
  pub id : ℕ
  pub user_deleted : Bool
  pub ipacm_installed : Bool

-- By the cookie; `foreign` is an object of another file, such as a routing rule.
pub data Object : Type 0 where
  hdr_entry : HdrEntry → Object
  ctx_entry : CtxEntry → Object
  foreign : Object

pub data DmaCall : Type 0 where
  map_single unmap_single : ℕ → DmaCall

-- The part of ipa_ctx that the file works on. `fresh` is the pointer that the next allocation gives.
pub record Tables : Type 0 where
  pub object : ℕ → Option Object
  pub fresh : ℕ
  pub ids : ℕ → Option ℕ
  pub hdr_list : List ℕ
  pub hdr_slots : Slots
  pub hdr_cnt : ℕ
  pub ctx_list : List ℕ
  pub ctx_slots : Slots
  pub ctx_cnt : ℕ
  pub dma : List DmaCall

-- The memory of the two tables, and whether the hardware is IPA v2.5.
pub record Platform : Type 0 where
  pub hdr_mem_size : ℕ
  pub ctx_mem_size : ℕ
  pub is_v2_5 : Bool

pub record Answers : Type 0 where
  pub object_ok : Bool
  pub offset_ok : Bool
  pub id : Option ℕ

-- ipa_hdr_bin_sz and ipa_hdr_proc_ctx_bin_sz.
unfoldable pub hdr_bin_sz : ℕ → ℕ
hdr_bin_sz zero = 8
hdr_bin_sz (suc zero) = 16
hdr_bin_sz (suc (suc zero)) = 24
hdr_bin_sz (suc (suc (suc zero))) = 36
hdr_bin_sz (suc (suc (suc (suc n)))) = 60

unfoldable pub ctx_bin_sz : ℕ → ℕ
ctx_bin_sz zero = 32
ctx_bin_sz (suc n) = 64

-- The first bin that is large enough.
unfoldable pub hdr_bin : ℕ → Option ℕ
unfolding hdr_bin_sz
hdr_bin len =
    if leb len (hdr_bin_sz 0)
    then some 0
    else if leb len (hdr_bin_sz 1)
    then some 1
    else if leb len (hdr_bin_sz 2)
    then some 2
    else if leb len (hdr_bin_sz 3)
    then some 3
    else if leb len (hdr_bin_sz 4)
    then some 4
    else none

unfoldable pub ctx_bin : ℕ → Option ℕ
unfolding ctx_bin_sz
ctx_bin len =
    if leb len (ctx_bin_sz 0) then some 0 else if leb len (ctx_bin_sz 1) then some 1 else none

-- sizeof of the two sequences: a header command of 8 bytes, a command of 4 and an end of 4.
abbrev pub needed_len : ℕ → ℕ
needed_len proc_type = if proc_type == 0 then 12 else 16

abbrev pub hdr_l2_max : ℕ
hdr_l2_max = 4

abbrev pub hdr_proc_max : ℕ
hdr_proc_max = 11

abbrev pub hdr_max_size : ℕ
hdr_max_size = 64

-- IPA_RESOURCE_NAME_MAX
abbrev pub resource_name_max : ℕ
resource_name_max = 32

unfoldable pub lan_rx_hdr_name : List ℕ
unfolding codes
lan_rx_hdr_name = codes "ipa_lan_hdr"

-- strcmp of two names.
unfoldable pub same_name : List ℕ → List ℕ → Bool
same_name [] [] = true
same_name (a ∷ as') (b ∷ bs) = (a == b) && same_name as' bs
same_name _ _ = false

-- The u32 counters.
abbrev pub count_up : ℕ → ℕ
count_up n = (n + 1) % 4294967296

abbrev pub count_down : ℕ → ℕ
count_down n = (n + 4294967295) % 4294967296

unfoldable pub put_object : ℕ → Object → Tables → Tables
put_object n o s = record s { object = update s.object n (some o) }

unfoldable pub free_object : ℕ → Tables → Tables
free_object n s = record s { object = update s.object n none }

-- ipa_id_find: nothing, or a pointer with its object; a pointer to a freed object is a fault.
unfoldable pub find_object : ℕ → Tables → Option (Option (ℕ × Object))
find_object hdl s = elim (s.ids hdl) [
  | none ↦ some none
  | some n ↦ do o ← s.object n; some (some (n, o))
]

-- list_del
unfoldable pub list_del : ℕ → List ℕ → List ℕ
list_del n [] = []
list_del n (m ∷ ms) = if m == n then ms else m ∷ list_del n ms

unfoldable pub set_id : ℕ → Option ℕ → Tables → Tables
set_id id n s = record s { ids = update s.ids id n }
