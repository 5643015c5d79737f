-- ===== src/Examples/Codec.antt =====
-- The codec on concrete messages.
use postmarketos_x00td_cellu.Common.{ℕ, ◌≡◌, refl, Option, some, List, [], ◌∷◌, length, arith}
use postmarketos_x00td_cellu.Common.Int.{pos}
use postmarketos_x00td_cellu.Qmi.{qmi_tlv_find, qmi_result, qmi_tlv_get_u32}
use postmarketos_x00td_cellu.Qmi.Find.{InMessage, qmi_tlv_find_total}
use postmarketos_x00td_cellu.Qmi.RoundTrip.{qmi_tlv_get_u32-encode, qmi_result-encode}
use postmarketos_x00td_cellu.Qmi.Wire.{Tlv, encode, message, le32}

-- A reply with an error code, and the packet data handle.
abbrev reply : List Tlv
reply = (0x02, 1 ∷ 0 ∷ 74 ∷ 0 ∷ []) ∷ (0x01, le32 0x1234_5678) ∷ []

qmi_tlv_find_total_example :
    (r : Option (ℕ × ℕ)) × (qmi_tlv_find (2 ∷ 1 ∷ 0 ∷ 0x20 ∷ 0 ∷ 9 ∷ 0 ∷ 1 ∷ 200 ∷ []) 9 0x01
      ≡ some r)
    × InMessage 9 7 r
qmi_tlv_find_total_example = qmi_tlv_find_total (2 ∷ 1 ∷ 0 ∷ 0x20 ∷ 0 ∷ 9 ∷ 0 ∷ 1 ∷ 200 ∷ []) 0x01

qmi_tlv_get_u32-encode_example :
    qmi_tlv_get_u32
      (message 2 4 0x20 (encode reply))
      (length (message 2 4 0x20 (encode reply)))
      0x01
    ≡ some (some 0x1234_5678)
qmi_tlv_get_u32-encode_example =
    qmi_tlv_get_u32-encode 2 4 0x20 0x01 0x1234_5678 reply (omega arith, (omega arith, tt)) refl
      (omega arith)

qmi_result-encode_example :
    qmi_result (message 2 4 0x20 (encode reply)) (length (message 2 4 0x20 (encode reply)))
    ≡ some (pos 74)
qmi_result-encode_example =
    qmi_result-encode 2 4 0x20 1 0 74 0 [] reply (omega arith, (omega arith, tt)) refl (omega arith)
