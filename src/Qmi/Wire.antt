-- ===== src/Qmi/Wire.antt =====
-- The wire format of QMI messages, independently of how the program writes and reads it.
use postmarketos_x00td_cellu.Common.{
  ℕ, ◌/◌, ◌%◌, ◌<◌, Option, none, some, List, [], ◌∷◌, ◌++◌, length, ◌==◌, if◌then◌else◌, All,
}

-- A type and a value.
abbrev pub Tlv : Type 0
Tlv = ℕ × List ℕ

abbrev pub tlv : ℕ → List ℕ → List ℕ
tlv type v = type ∷ (length v % 256) ∷ (length v / 256 % 256) ∷ v

abbrev pub encode : List Tlv → List ℕ
encode [] = []
encode ((type, v) ∷ rest) = tlv type v ++ encode rest

-- The control flag, the transaction, the message and the length of the body.
abbrev pub header : ℕ → ℕ → ℕ → ℕ → List ℕ
header flag txid msg_id body_len =
    flag
    ∷ (txid % 256)
    ∷ (txid / 256 % 256)
    ∷ (msg_id % 256)
    ∷ (msg_id / 256 % 256)
    ∷ (body_len % 256)
    ∷ (body_len / 256 % 256)
    ∷ []

abbrev pub message : ℕ → ℕ → ℕ → List ℕ → List ℕ
message flag txid msg_id body = header flag txid msg_id (length body) ++ body

-- Every value has a length that two bytes hold.
abbrev pub Fits : List Tlv → Type 0
Fits = All (λ e. length (e.1) < 65536)

abbrev pub first : ℕ → List Tlv → Option (List ℕ)
first type [] = none
first type ((u, v) ∷ rest) = if u == type then some v else first type rest

abbrev pub le32 : ℕ → List ℕ
le32 v = (v % 256) ∷ (v / 256 % 256) ∷ (v / 65536 % 256) ∷ (v / 16777216 % 256) ∷ []
