-- ===== src/Request/Rules.antt =====
-- A rule for each step of composing a request.
use postmarketos_x00td_cellu.Common.{
  ℕ, ◌+◌, ◌-◌, ◌/◌, ◌%◌, ◌≤◌, ◌<◌, ◌≡◌, refl, ap, ◌∙◌, subst, Option, some, List, [], ◌∷◌, ◌++◌,
  length, length-replicate, take, take-append_length, arith,
}
use postmarketos_x00td_cellu.Common.Fault.{◌>>=◌, write_bytes}
use postmarketos_x00td_cellu.Qmi.{qmi_hdr_req, qmi_tlv_bytes, qmi_tlv_u8, qmi_tlv_u16, qmi_tlv_u32}
use postmarketos_x00td_cellu.Qmi.Wire.{tlv, header, message, le32}
use postmarketos_x00td_cellu.Qmi.Append.{
  Built, hdr_req-Built, tlv_bytes-Built, write_bytes-append_at,
}
use postmarketos_x00td_cellu.Request.{array, patch_body}

pub length-array : (size : ℕ) → length (array size) ≡ size
unfolding array
length-array size = length-replicate size 0

module _ (k : List ℕ × ℕ → Option (List ℕ)) {out : Option (List ℕ)} where
  pub then_hdr_len :
      (req : List ℕ) (txid msg_id body_len size : ℕ)
      → length req ≡ size
      → 7 ≤ size
      → ((b : List ℕ) → Built b 7 (header 0 txid msg_id body_len) (size - 7) → k (b, 7) ≡ out)
      → (qmi_hdr_req req txid msg_id body_len >>= k) ≡ out
  then_hdr_len req txid msg_id body_len size e h rest =
      let (b, w, built) = hdr_req-Built req txid msg_id body_len (omega arith) in
      rw w (rest b (subst (λ n. Built b 7 (header 0 txid msg_id body_len) (n - 7)) e built))

  pub then_hdr :
      (req : List ℕ) (txid msg_id size : ℕ)
      → length req ≡ size
      → 7 ≤ size
      → ((b : List ℕ) → Built b 7 (header 0 txid msg_id 0) (size - 7) → k (b, 7) ≡ out)
      → (qmi_hdr_req req txid msg_id 0 >>= k) ≡ out
  then_hdr req txid msg_id size = then_hdr_len req txid msg_id 0 size

  module _ {b : List ℕ} {off : ℕ} {msg : List ℕ} {room : ℕ} (built : Built b off msg room) where
    pub then_bytes :
        (type : ℕ) (v : List ℕ) (n : ℕ)
        → n ≡ length v
        → n < 65536
        → 3 + n ≤ room
        → ((b' : List ℕ) (off' : ℕ)
            → Built b' off' (msg ++ tlv type v) (room - (3 + n))
            → k (b', off') ≡ out)
        → (qmi_tlv_bytes b off type v n >>= k) ≡ out
    then_bytes type v n e h space rest =
        let (b', off', w, built') = tlv_bytes-Built type v n built e h space in
        rw w (rest b' off' built')

    pub then_u8 :
        (type v : ℕ)
        → 4 ≤ room
        → ((b' : List ℕ) (off' : ℕ)
            → Built b' off' (msg ++ tlv type (v ∷ [])) (room - 4)
            → k (b', off') ≡ out)
        → (qmi_tlv_u8 b off type v >>= k) ≡ out
    unfolding qmi_tlv_u8
    then_u8 type v space rest = then_bytes type (v ∷ []) 1 refl (omega arith) space rest

    pub then_u16 :
        (type v : ℕ)
        → 5 ≤ room
        → ((b' : List ℕ) (off' : ℕ)
            → Built b' off' (msg ++ tlv type ((v % 256) ∷ (v / 256 % 256) ∷ [])) (room - 5)
            → k (b', off') ≡ out)
        → (qmi_tlv_u16 b off type v >>= k) ≡ out
    unfolding qmi_tlv_u16
    then_u16 type v space rest = then_bytes type _ 2 refl (omega arith) space rest

    pub then_u32 :
        (type v : ℕ)
        → 7 ≤ room
        → ((b' : List ℕ) (off' : ℕ)
            → Built b' off' (msg ++ tlv type (le32 v)) (room - 7)
            → k (b', off') ≡ out)
        → (qmi_tlv_u32 b off type v >>= k) ≡ out
    unfolding qmi_tlv_u32
    then_u32 type v space rest = then_bytes type (le32 v) 4 refl (omega arith) space rest

-- The patched header announces the length of the body, and what is sent ends with the body.
pub patch_body-message :
    (b : List ℕ) (off txid msg_id room : ℕ) (body : List ℕ)
    → Built b off (header 0 txid msg_id 0 ++ body) room
    → length body < 65536
    → patch_body b 7 off ≡ some (message 0 txid msg_id body)
unfolding patch_body
patch_body-message b off txid msg_id room body built fits =
    let size : off ≡ length body + 7 = omega (arith, built.offset) in
    let e : (off - 7) % 65536 ≡ length body = omega arith in
    let five : List ℕ =
      0 ∷ (txid % 256) ∷ (txid / 256 % 256) ∷ (msg_id % 256) ∷ (msg_id / 256 % 256) ∷ [] in
    let new : List ℕ = (length body % 256) ∷ (length body / 256 % 256) ∷ [] in
    let stored =
      ap (λ a. write_bytes a 5 new) built.split
      ∙ write_bytes-append_at new five (0 ∷ 0 ∷ []) (body ++ built.rest) 5 refl refl in
    rw (e, stored)
      (ap some (
        ap (λ n. take n (message 0 txid msg_id body ++ built.rest)) built.offset
        ∙ take-append_length (message 0 txid msg_id body) built.rest))

-- The same, where the message is known up to an equation.
pub patch_body-flat :
    (b : List ℕ) (off txid msg_id room : ℕ) (body : List ℕ) {msg : List ℕ}
    → Built b off msg room
    → msg ≡ header 0 txid msg_id 0 ++ body
    → length body < 65536
    → patch_body b 7 off ≡ some (message 0 txid msg_id body)
patch_body-flat b off txid msg_id room body built e fits =
    patch_body-message b off txid msg_id room body (subst (λ m. Built b off m room) e built) fits

-- The first `off` bytes are the message.
pub take-Built :
    {b : List ℕ} {off : ℕ} {msg : List ℕ} {room : ℕ} → Built b off msg room → take off b ≡ msg
take-Built {b} {off} {msg} built =
    ap (λ n. take n b) built.offset
    ∙ ap (take (length msg)) built.split
    ∙ take-append_length msg built.rest
