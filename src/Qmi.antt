-- ===== src/Qmi.antt =====
-- vendor-init/qmi.c: the QMI header, the appenders and the decoder of type-length-value elements.
-- A byte array is a list, `& 0xff` is `% 256` and `>> 8` is `/ 256`.
pub mod Wire
pub mod Append
pub mod Find
pub mod RoundTrip
use postmarketos_x00td_cellu.Common.{
  ℕ, zero, suc, ◌+◌, ◌-◌, ◌*◌, ◌/◌, ◌%◌, not, Option, none, some, List, [], ◌∷◌, ltb, leb, ◌==◌,
  if◌then◌else◌, take, bit_or,
}
use postmarketos_x00td_cellu.Common.Fault.{◌>>=◌, read, write_bytes}
use postmarketos_x00td_cellu.Common.Int.{ℤ, pos, negsuc}

abbrev pub qmi_flag_req : ℕ
qmi_flag_req = 0x00

-- The array and the offset behind what was written.
unfoldable pub qmi_hdr_req : List ℕ → ℕ → ℕ → ℕ → Option (List ℕ × ℕ)
qmi_hdr_req b txid msg_id body_len = do
  b' ← write_bytes b 0 (
      qmi_flag_req
      ∷ (txid % 256)
      ∷ (txid / 256 % 256)
      ∷ (msg_id % 256)
      ∷ (msg_id / 256 % 256)
      ∷ (body_len % 256)
      ∷ (body_len / 256 % 256)
      ∷ [])
  some (b', 7)

-- `len` is converted to uint16_t at the call.
unfoldable pub qmi_tlv_bytes : List ℕ → ℕ → ℕ → List ℕ → ℕ → Option (List ℕ × ℕ)
qmi_tlv_bytes b off type bytes len = do
  let l = len % 65536
  b1 ← write_bytes b off (type ∷ (l % 256) ∷ (l / 256 % 256) ∷ [])
  b2 ← if l == 0 then some b1 else write_bytes b1 (off + 3) (take l bytes)
  some (b2, off + 3 + l)

unfoldable pub qmi_tlv_u8 : List ℕ → ℕ → ℕ → ℕ → Option (List ℕ × ℕ)
qmi_tlv_u8 b off type v = qmi_tlv_bytes b off type (v ∷ []) 1

unfoldable pub qmi_tlv_u16 : List ℕ → ℕ → ℕ → ℕ → Option (List ℕ × ℕ)
qmi_tlv_u16 b off type v = qmi_tlv_bytes b off type ((v % 256) ∷ (v / 256 % 256) ∷ []) 2

unfoldable pub qmi_tlv_u32 : List ℕ → ℕ → ℕ → ℕ → Option (List ℕ × ℕ)
qmi_tlv_u32 b off type v =
    qmi_tlv_bytes b off type
      ((v % 256) ∷ (v / 256 % 256) ∷ (v / 65536 % 256) ∷ (v / 16777216 % 256) ∷ []) 4

-- One round of the loop at offset `i`; `more` goes on from another offset. The inner `none` is
-- "not found", the outer one a fault.
pub find_round : List ℕ → ℕ → ℕ → ℕ → (ℕ → Option (Option (ℕ × ℕ))) → Option (Option (ℕ × ℕ))
find_round p n type i more = if not (leb (i + 3) n) then some none else do
  t ← read p i
  lo ← read p (i + 1)
  hi ← read p (i + 2)
  let l = bit_or lo (hi * 256)
  if ltb n (i + 3 + l)
      then some none
      else if t == type
      then some (some (i + 3, l))
      else more (i + 3 + l)

-- Without fuel the loop has no result.
pub find_loop : ℕ → List ℕ → ℕ → ℕ → ℕ → Option (Option (ℕ × ℕ))
unfolding find_round
find_loop zero p n type i = none
find_loop (suc fuel) p n type i = find_round p n type i (find_loop fuel p n type)

-- The offset and the length of the first element of the type. Each round takes 3 bytes at least.
unfoldable pub qmi_tlv_find : List ℕ → ℕ → ℕ → Option (Option (ℕ × ℕ))
unfolding find_loop
qmi_tlv_find p n type = find_loop (n + 1) p n type 7

-- The error code, or -1 where the result element is absent or short.
pub result_at : List ℕ → Option (ℕ × ℕ) → Option ℤ
result_at p none = some (negsuc 0)
result_at p (some (off, len)) =
    if ltb len 4
    then some (negsuc 0)
    else do lo ← read p (off + 2); hi ← read p (off + 3); some (pos (bit_or lo (hi * 256)))

unfoldable pub qmi_result : List ℕ → ℕ → Option ℤ
unfolding result_at
qmi_result p n = do found ← qmi_tlv_find p n 0x02; result_at p found

pub u32_at : List ℕ → Option (ℕ × ℕ) → Option (Option ℕ)
u32_at p none = some none
u32_at p (some (off, len)) = if ltb len 4 then some none else do
  b0 ← read p off
  b1 ← read p (off + 1)
  b2 ← read p (off + 2)
  b3 ← read p (off + 3)
  some (some (bit_or (bit_or (bit_or b0 (b1 * 256)) (b2 * 65536)) (b3 * 16777216)))

-- `none` inside: the function returned 0 and left its output alone.
unfoldable pub qmi_tlv_get_u32 : List ℕ → ℕ → ℕ → Option (Option ℕ)
unfolding u32_at
qmi_tlv_get_u32 p n type = do found ← qmi_tlv_find p n type; u32_at p found
