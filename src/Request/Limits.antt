-- ===== src/Request/Limits.antt =====
-- Requests that carry the APN: the two of stage_iattach.c and stage_fff2.c, and what happens in
-- stage_wds_start.c to an APN that is too long for its array.
use postmarketos_x00td_cellu.Common.{
  ℕ, ◌+◌, ◌-◌, ◌%◌, ◌≤◌, ◌<◌, ◌≡◌, refl, ap, inl, inr, Bool, true, false, Bool-cases, Option, some,
  none, List, [], ◌∷◌, ◌++◌, append_assoc, length, length-append, ltb, arith,
}
use postmarketos_x00td_cellu.Common.Fault.{◌>>=◌}
use postmarketos_x00td_cellu.Qmi.{qmi_tlv_u8, qmi_tlv_bytes}
use postmarketos_x00td_cellu.Qmi.Wire.{tlv, encode, message}
use postmarketos_x00td_cellu.Qmi.Append.{Built, tlv_bytes-overflow}
use postmarketos_x00td_cellu.Request.Messages
use postmarketos_x00td_cellu.Request.Bytes.{fff2_elements, apn_limit}
use postmarketos_x00td_cellu.Request.Rules.{
  then_hdr, then_hdr_len, then_bytes, then_u8, patch_body-flat, take-Built,
}

-- A step that faults, or that had room.
module _ (k : List ℕ × ℕ → Option (List ℕ)) {b : List ℕ} {off : ℕ} {msg : List ℕ} {room : ℕ}
    (built : Built b off msg room) where
  bytes_or_fault :
      (type : ℕ) (v : List ℕ)
      → length v < 65536
      → ((b' : List ℕ) (off' : ℕ)
          → 3 + length v ≤ room
          → Built b' off' (msg ++ tlv type v) (room - (3 + length v))
          → k (b', off') ≡ none)
      → (qmi_tlv_bytes b off type v (length v) >>= k) ≡ none
  bytes_or_fault type v fits rest = elim (Bool-cases (ltb room (3 + length v))) [
    | inl small ↦
        rw (tlv_bytes-overflow b off msg room type v (length v) built refl fits (ground arith))
    | inr enough ↦
        then_bytes k built type v (length v) refl fits (ground arith)
          λ b' off'. rest b' off' (ground arith)
  ]

  u8_or_fault :
      (type v : ℕ)
      → ((b' : List ℕ) (off' : ℕ)
          → 4 ≤ room
          → Built b' off' (msg ++ tlv type (v ∷ [])) (room - 4)
          → k (b', off') ≡ none)
      → (qmi_tlv_u8 b off type v >>= k) ≡ none
  unfolding qmi_tlv_u8
  u8_or_fault type v rest = bytes_or_fault type (v ∷ []) (omega arith) rest

module _ (req : List ℕ) (txid : ℕ) (apn : List ℕ) (size : length req ≡ 256) where
  -- In an array of 256 bytes, with an APN of at most 230 bytes, the request 0xFFF2 is the header and
  -- its five elements.
  pub fff2_request_lem :
      (ip_type ext_tech : ℕ)
      → length apn ≤ 230
      → Messages.fff2_request req txid apn ip_type ext_tech
        ≡ some (message 0 txid 0xfff2 (encode (fff2_elements apn ip_type ext_tech)))
  unfolding Messages.fff2_request
  fff2_request_lem ip_type ext_tech short = then_hdr _ req txid 0xfff2 256 size (omega arith) λ b h.
      then_u8 _ h 0x01 1 (omega arith) λ b1 off1 h1.
        then_u8 _ h1 0x31 ext_tech (omega arith) λ b2 off2 h2.
          then_bytes _ h2 0x14 apn (length apn) refl (omega arith) (omega arith) λ b3 off3 h3.
            then_u8 _ h3 0x19 ip_type (omega arith) λ b4 off4 h4.
              then_u8 _ h4 0x35 1 (omega arith) λ b5 off5 h5.
                patch_body-flat b5 off5 txid 0xfff2 _ (encode (fff2_elements apn ip_type ext_tech))
                  h5 (simp append_assoc)
                  (omega (
                    arith,
                    length-append apn (encode ((0x19, ip_type ∷ []) ∷ (0x35, 1 ∷ []) ∷ [])),
                  ))

  -- With an APN of fewer than 65536 bytes that leaves no room for what follows it, composing
  -- WDS_START_NETWORK stores outside its array of 256 bytes.
  pub start_network_request-overflow :
      (simple_wds : Bool)
      → apn_limit simple_wds < length apn
      → length apn < 65536
      → Messages.start_network_request req txid apn simple_wds ≡ none
  unfolding Messages.start_network_request
  start_network_request-overflow true long fits =
      then_hdr _ req txid 0x20 256 size (omega arith) λ b h.
        bytes_or_fault _ h 0x14 apn fits
          λ b1 off1 r1 h1. u8_or_fault _ h1 0x19 4 λ b2 off2 r2 h2. absurd (omega arith)
  start_network_request-overflow false long fits =
      then_hdr _ req txid 0x20 256 size (omega arith) λ b h.
        bytes_or_fault _ h 0x14 apn fits λ b1 off1 r1 h1. u8_or_fault _ h1 0x16 0 λ b2 off2 r2 h2.
          u8_or_fault _ h2 0x19 4 λ b3 off3 r3 h3. u8_or_fault _ h3 0x31 5 λ b4 off4 r4 h4.
            u8_or_fault _ h4 0x35 1
              λ b5 off5 r5 h5. u8_or_fault _ h5 0x39 1 λ b6 off6 r6 h6. absurd (omega arith)

-- In an array of 256 bytes, with an APN of at most 242 bytes, the request of stage_iattach.c is the
-- header and two elements, and its header announces the length of the body that was computed before.
pub initial_attach_request_lem :
    (req : List ℕ) (txid : ℕ) (apn : List ℕ)
    → length req ≡ 256
    → length apn ≤ 242
    → Messages.initial_attach_request req txid apn
      ≡ some (message 0 txid 0xa3 (encode ((0x10, apn) ∷ (0x14, 3 ∷ []) ∷ [])))
unfolding Messages.initial_attach_request
initial_attach_request_lem req txid apn size short =
    let body : List ℕ = encode ((0x10, apn) ∷ (0x14, 3 ∷ []) ∷ []) in
    let e : (3 + length apn + (3 + 1)) % 65536 ≡ length body =
      omega (arith, length-append apn (encode ((0x14, 3 ∷ []) ∷ []))) in
    rw e (
      then_hdr_len _ req txid 0xa3 (length body) 256 size (omega arith) λ b h.
        then_bytes _ h 0x10 apn (length apn) refl (omega arith) (omega arith)
          λ b1 off1 h1. then_u8 _ h1 0x14 3 (omega arith) λ b2 off2 h2. ap some (take-Built h2))
