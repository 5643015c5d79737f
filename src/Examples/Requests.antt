-- ===== src/Examples/Requests.antt =====
-- Requests at concrete transactions and APNs.
use postmarketos_x00td_cellu.Common.{
  ℕ, ◌≡◌, true, false, none, some, List, [], ◌∷◌, replicate, arith,
}
use postmarketos_x00td_cellu.Qmi.Wire.{encode, message}
use postmarketos_x00td_cellu.Request.{array}
use postmarketos_x00td_cellu.Request.Bytes.{start_elements, start_network_request_lem}
use postmarketos_x00td_cellu.Request.Limits.{start_network_request-overflow}
use postmarketos_x00td_cellu.Request.Messages.{start_network_request}
use postmarketos_x00td_cellu.Request.Rules.{length-array}

abbrev internet : List ℕ
internet = b'i' ∷ b'n' ∷ b't' ∷ b'e' ∷ b'r' ∷ b'n' ∷ b'e' ∷ b't' ∷ []

-- The 38 bytes of the captured WDS_START_NETWORK.
captured :
    start_network_request (array 256) 4 internet false
    ≡ some (
        0 ∷ 4 ∷ 0 ∷ 0x20 ∷ 0 ∷ 0x1f ∷ 0 ∷ 0x14 ∷ 8 ∷ 0 ∷ 0x69 ∷ 0x6e ∷ 0x74 ∷ 0x65 ∷ 0x72 ∷ 0x6e
        ∷ 0x65 ∷ 0x74 ∷ 0x16 ∷ 1 ∷ 0 ∷ 0 ∷ 0x19 ∷ 1 ∷ 0 ∷ 4 ∷ 0x31 ∷ 1 ∷ 0 ∷ 5 ∷ 0x35 ∷ 1 ∷ 0 ∷ 1
        ∷ 0x39 ∷ 1 ∷ 0 ∷ 1 ∷ [])
captured = start_network_request_lem (array 256) 4 internet false (length-array 256) (omega arith)

start_network_request_lem_example :
    start_network_request (array 256) 4 internet true
    ≡ some (message 0 4 0x20 (encode (start_elements internet true)))
start_network_request_lem_example =
    start_network_request_lem (array 256) 4 internet true (length-array 256) (omega arith)

start_network_request-overflow_example :
    start_network_request (array 256) 4 (replicate 243 b'a') true ≡ none
start_network_request-overflow_example =
    start_network_request-overflow (array 256) 4 (replicate 243 b'a') (length-array 256) true
      (omega arith) (omega arith)
