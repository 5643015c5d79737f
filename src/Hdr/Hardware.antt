-- ===== src/Hdr/Hardware.antt =====
-- ipa_hdr.c: the table of headers as the hardware reads it.
use postmarketos_x00td_cellu.Common.{
  ℕ, Bool, not, Option, none, some, List, [], ◌∷◌, take, replicate, ◌==◌, if◌then◌else◌,
}
use postmarketos_x00td_cellu.Common.Fault.{◌>>=◌, write_bytes}
use postmarketos_x00td_cellu.Common.Int.{ℤ, pos, eperm, enomem}
use postmarketos_x00td_cellu.Hdr.Tables.{HdrEntry, hdr_entry, ctx_entry, foreign, Tables}

-- What memcpy takes from a header.
abbrev pub bytes : HdrEntry → List ℕ
bytes e = take e.hdr_len e.hdr

-- A header outside the table is skipped.
unfoldable pub copy_entry : HdrEntry → List ℕ → Option (List ℕ)
unfolding write_bytes
copy_entry e b =
    if e.is_hdr_proc_ctx then some b else do (x, bin) ← e.offset_entry; write_bytes b x (bytes e)

unfoldable pub copy_header : ℕ → Tables → List ℕ → Option (List ℕ)
unfolding copy_entry
copy_header n s b = do
  o ← s.object n
  elim o [ hdr_entry e ↦ copy_entry e b | ctx_entry _ ↦ none | foreign ↦ none ]

unfoldable pub copy_headers : List ℕ → Tables → List ℕ → Option (List ℕ)
unfolding copy_header
copy_headers [] s b = some b
copy_headers (n ∷ ns) s b = do b1 ← copy_header n s b; copy_headers ns s b1

-- ipa_generate_hdr_hw_tbl: the result and the bytes of the table.
unfoldable pub generate_hdr_hw_tbl : Bool → Tables → Option (ℤ × List ℕ)
unfolding copy_headers
generate_hdr_hw_tbl alloc_ok s =
    if s.hdr_slots.end_ofst == 0
    then some (eperm, [])
    else if not alloc_ok
    then some (enomem, [])
    else do b ← copy_headers s.hdr_list s (replicate s.hdr_slots.end_ofst 0); some (pos 0, b)
