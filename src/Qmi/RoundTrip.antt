-- ===== src/Qmi/RoundTrip.antt =====
-- vendor-init/qmi.c: the decoder against the wire format.
use postmarketos_x00td_cellu.Common.{
  ℕ, zero, suc, ◌+◌, ◌*◌, ◌/◌, ◌%◌, ◌^◌, ◌<◌, ◌≡◌, refl, sym, ap, ◌∙◌, subst, inl, inr, false,
  Option, none, some, List, [], ◌∷◌, ◌++◌, append_assoc, length, length-append, get_elem?-append_at,
  ltb, le→leb, ◌==◌, Bool-cases, if◌then◌else◌, bit_or, bit_or-shifted, arith,
}
use postmarketos_x00td_cellu.Common.Fault.{read}
use postmarketos_x00td_cellu.Common.Int.{pos}
use postmarketos_x00td_cellu.Qmi.{
  find_loop, qmi_tlv_find, result_at, qmi_result, u32_at, qmi_tlv_get_u32,
}
use postmarketos_x00td_cellu.Qmi.Wire.{Tlv, tlv, encode, header, message, Fits, first, le32}
use postmarketos_x00td_cellu.Qmi.Find.{find_loop_round, find_loop_stop}

-- The two length bytes of an element give its length back.
length_bytes : (n : ℕ) → n < 65536 → bit_or (n % 256) (n / 256 % 256 * 256) ≡ n
length_bytes n h = omega (arith, bit_or-shifted 8 (n % 256) (n / 256 % 256) (omega arith))

-- Where the first element of a type stands, if the elements begin at offset `i`.
abbrev pub place : ℕ → ℕ → List Tlv → Option (ℕ × ℕ)
place type i [] = none
place type i ((u, v) ∷ rest) =
    if u == type then some (i + 3, length v) else place type (i + 3 + length v) rest

-- One round of the search at an element.
find_loop-tlv :
    (fuel : ℕ) (before v after : List ℕ) (u type i n : ℕ)
    → i ≡ length before
    → n ≡ length (before ++ (tlv u v ++ after))
    → length v < 65536
    → find_loop (suc fuel) (before ++ (tlv u v ++ after)) n type i ≡ (
        if u == type
        then some (some (i + 3, length v))
        else find_loop fuel (before ++ (tlv u v ++ after)) n type (i + 3 + length v))
find_loop-tlv fuel before v after u type i n ei en fits =
    let p : List ℕ = before ++ (tlv u v ++ after) in
    let l1 = length-append before (tlv u v ++ after) in
    let l2 = length-append v after in
    let low : ℕ = length v % 256 in
    let high : ℕ = length v / 256 % 256 in
    let whole : ltb n (i + 3 + length v) ≡ false = ground (arith, l1, l2) in
    find_loop_round fuel p n type i u low high (le→leb (i + 3) n (omega (arith, l1, l2)))
      (get_elem?-append_at before (tlv u v ++ after) i 0 (omega arith))
      (get_elem?-append_at before (tlv u v ++ after) (i + 1) 1 (omega arith))
      (get_elem?-append_at before (tlv u v ++ after) (i + 2) 2 (omega arith))
    ∙ rw (length_bytes (length v) fits, whole)

find_loop-encode :
    (tlvs : List Tlv) (fuel : ℕ) (p before : List ℕ) (type i : ℕ)
    → Fits tlvs
    → p ≡ before ++ encode tlvs
    → i ≡ length before
    → 0 < fuel
    → length p < fuel + i
    → find_loop fuel p (length p) type i ≡ some (place type i tlvs)
find_loop-encode tlvs zero p before type i fits e ei some_fuel enough = elim some_fuel [ ]
find_loop-encode [] (suc fuel) p before type i fits e ei some_fuel enough =
    let lp : length p ≡ length before + 0 = ap length e ∙ length-append before [] in
    find_loop_stop fuel p (length p) type i (ground arith)
find_loop-encode ((u, v) ∷ rest) (suc fuel) p before type i fits e ei some_fuel enough =
    let lp = ap length e ∙ length-append before (tlv u v ++ encode rest) in
    let lv = length-append v (encode rest) in
    let round =
      subst
        (λ q. find_loop (suc fuel) q (length p) type i ≡ (
          if u == type
          then some (some (i + 3, length v))
          else find_loop fuel q (length p) type (i + 3 + length v)))
        (sym e)
        (find_loop-tlv fuel before v (encode rest) u type i (length p) ei (ap length e) fits.0) in
    round ∙ elim (Bool-cases (u == type)) [
      | inl hit ↦ rw hit
      | inr miss ↦ rw miss (
          find_loop-encode rest fuel p (before ++ tlv u v) type (i + 3 + length v) fits.1
            (e ∙ sym (append_assoc before (tlv u v) (encode rest)))
            (omega (arith, length-append before (tlv u v))) (omega arith) (omega arith))
    ]

-- The value at the place of the first element of a type.
place-first :
    (tlvs : List Tlv) (p before : List ℕ) (type i : ℕ) (v : List ℕ)
    → p ≡ before ++ encode tlvs
    → i ≡ length before
    → first type tlvs ≡ some v
    → (off : ℕ) × (before' : List ℕ) × (after : List ℕ) × (place type i tlvs ≡ some (off, length v))
      × (p ≡ before' ++ (v ++ after))
      × (off ≡ length before')
place-first [] p before type i v e ei found = cc
place-first ((u, w) ∷ rest) p before type i v e ei found = elim (Bool-cases (u == type)) [
  | inl hit ↦
      let same : w ≡ v = ground (arith, found) in
      (
        i + 3,
        before ++ u ∷ (length w % 256) ∷ (length w / 256 % 256) ∷ [],
        encode rest,
        rw (hit, same),
        e ∙ rw (append_assoc, same),
        omega (arith, length-append before (u ∷ (length w % 256) ∷ (length w / 256 % 256) ∷ [])),
      )
  | inr miss ↦ rw miss (
      place-first rest p (before ++ tlv u w) type (i + 3 + length w) v
        (e ∙ sym (append_assoc before (tlv u w) (encode rest)))
        (omega (arith, length-append before (tlv u w))) (rw miss at found))
]

place-absent : (tlvs : List Tlv) (type i : ℕ) → first type tlvs ≡ none → place type i tlvs ≡ none
place-absent [] type i h = refl
place-absent ((u, w) ∷ rest) type i h = ground (arith, place-absent rest type (i + 3 + length w))

module _ (flag txid msg_id type : ℕ) (tlvs : List Tlv) (fits : Fits tlvs) where
  find-place :
      qmi_tlv_find
        (message flag txid msg_id (encode tlvs))
        (length (message flag txid msg_id (encode tlvs)))
        type
      ≡ some (place type 7 tlvs)
  unfolding qmi_tlv_find
  find-place =
      find_loop-encode tlvs _ (message flag txid msg_id (encode tlvs))
        (header flag txid msg_id (length (encode tlvs))) type 7 fits refl refl (omega arith)
        (omega arith)

  -- In a message whose elements fit, the search returns the offset and the length of the value of
  -- the first element of the type.
  pub qmi_tlv_find-encode :
      (v : List ℕ)
      → first type tlvs ≡ some v
      → (off : ℕ) × (before : List ℕ) × (after : List ℕ) × (qmi_tlv_find
            (message flag txid msg_id (encode tlvs))
            (length (message flag txid msg_id (encode tlvs)))
            type
          ≡ some (some (off, length v)))
        × (message flag txid msg_id (encode tlvs) ≡ before ++ (v ++ after))
        × (off ≡ length before)
  qmi_tlv_find-encode v found =
      let (off, before, after, e, split, at) =
        place-first tlvs (message flag txid msg_id (encode tlvs))
          (header flag txid msg_id (length (encode tlvs))) type 7 v refl refl found in
      (off, before, after, find-place ∙ ap some e, split, at)

  -- Where no element has the type, the search returns "not found".
  -- In a message whose elements fit and of which none has the type, the search finds nothing.
  pub qmi_tlv_find-absent :
      first type tlvs ≡ none
      → qmi_tlv_find
          (message flag txid msg_id (encode tlvs))
          (length (message flag txid msg_id (encode tlvs)))
          type
        ≡ some none
  qmi_tlv_find-absent h = find-place ∙ ap some (place-absent tlvs type 7 h)

-- A byte of a value that stands at a known offset.
read-value :
    (p before v after : List ℕ) (off i j : ℕ)
    → p ≡ before ++ (v ++ after)
    → i ≡ length before + j
    → read p i ≡ read (v ++ after) j
read-value p before v after off i j e ei =
    ap (λ q. read q i) e ∙ get_elem?-append_at before (v ++ after) i j ei

le32_sum :
    (v : ℕ)
    → v < 2 ^ 32
    → bit_or
        (bit_or (bit_or (v % 256) (v / 256 % 256 * 256)) (v / 65536 % 256 * 65536))
        (v / 16777216 % 256 * 16777216)
      ≡ v
le32_sum v h =
    rw
      (
        bit_or-shifted 8 (v % 256) (v / 256 % 256) (omega arith),
        bit_or-shifted 16 (v % 256 + v / 256 % 256 * 256) (v / 65536 % 256) (omega arith),
        bit_or-shifted 24 (v % 256 + v / 256 % 256 * 256 + v / 65536 % 256 * 65536)
            (v / 16777216 % 256) (omega arith),
      )
      (omega arith)

-- In a message whose elements fit, a number below 2 ^ 32 that the first element of its type carries
-- in four bytes is read back.
pub qmi_tlv_get_u32-encode :
    (flag txid msg_id type v : ℕ) (tlvs : List Tlv)
    → Fits tlvs
    → first type tlvs ≡ some (le32 v)
    → v < 2 ^ 32
    → qmi_tlv_get_u32
        (message flag txid msg_id (encode tlvs))
        (length (message flag txid msg_id (encode tlvs)))
        type
      ≡ some (some v)
unfolding qmi_tlv_get_u32 u32_at
qmi_tlv_get_u32-encode flag txid msg_id type v tlvs fits found range =
    let p : List ℕ = message flag txid msg_id (encode tlvs) in
    let (off, before, after, e, split, at) =
      qmi_tlv_find-encode flag txid msg_id type tlvs fits (le32 v) found in
    rw
      (
        e,
        read-value p before (le32 v) after off off 0 split (omega arith),
        read-value p before (le32 v) after off (off + 1) 1 split (omega arith),
        read-value p before (le32 v) after off (off + 2) 2 split (omega arith),
        read-value p before (le32 v) after off (off + 3) 3 split (omega arith),
      )
      (ap (λ n. some (some n)) (le32_sum v range))

-- In a message whose elements fit, the error code is the second 16-bit number of the first result
-- element, whose low byte is below 256.
pub qmi_result-encode :
    (flag txid msg_id r0 r1 lo hi : ℕ) (more : List ℕ) (tlvs : List Tlv)
    → Fits tlvs
    → first 0x02 tlvs ≡ some (r0 ∷ r1 ∷ lo ∷ hi ∷ more)
    → lo < 256
    → qmi_result
        (message flag txid msg_id (encode tlvs))
        (length (message flag txid msg_id (encode tlvs)))
      ≡ some (pos (lo + hi * 256))
unfolding qmi_result result_at
qmi_result-encode flag txid msg_id r0 r1 lo hi more tlvs fits found low =
    let p : List ℕ = message flag txid msg_id (encode tlvs) in
    let v : List ℕ = r0 ∷ r1 ∷ lo ∷ hi ∷ more in
    let (off, before, after, e, split, at) =
      qmi_tlv_find-encode flag txid msg_id 0x02 tlvs fits v found in
    let long : ltb (length v) 4 ≡ false = ground arith in
    rw (
      e,
      long,
      read-value p before v after off (off + 2) 2 split (omega arith),
      read-value p before v after off (off + 3) 3 split (omega arith),
      bit_or-shifted 8 lo hi low,
    )
