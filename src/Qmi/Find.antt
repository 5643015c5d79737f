-- ===== src/Qmi/Find.antt =====
-- vendor-init/qmi.c: qmi_tlv_find, and the readers on top of it, on any input.
use postmarketos_x00td_cellu.Common.{
  ℕ, zero, suc, ◌+◌, ◌*◌, ◌≤◌, ◌<◌, ◌≡◌, refl, inl, inr, true, false, Option, none, some, List,
  if◌then◌else◌, length, get_elem?-total, ltb, leb, leb→le, ◌==◌, Bool-cases, bit_or, arith,
}
use postmarketos_x00td_cellu.Common.Fault.{read}
use postmarketos_x00td_cellu.Common.Int.{ℤ, pos, negsuc}
use postmarketos_x00td_cellu.Qmi.{
  find_loop, qmi_tlv_find, result_at, qmi_result, u32_at, qmi_tlv_get_u32,
}

-- What the loop finds from `i` on lies in the first `n` bytes.
abbrev pub InMessage : ℕ → ℕ → Option (ℕ × ℕ) → Type 0
InMessage n i none = Unit
InMessage n i (some (off, len)) = (i + 3 ≤ off) × (off + len ≤ n)

-- One round at an offset with room for an element's head.
pub find_loop_round :
    (fuel : ℕ) (p : List ℕ) (n type i t lo hi : ℕ)
    → leb (i + 3) n ≡ true
    → read p i ≡ some t
    → read p (i + 1) ≡ some lo
    → read p (i + 2) ≡ some hi
    → find_loop (suc fuel) p n type i ≡ (
        if ltb n (i + 3 + bit_or lo (hi * 256))
        then some none
        else if t == type
        then some (some (i + 3, bit_or lo (hi * 256)))
        else find_loop fuel p n type (i + 3 + bit_or lo (hi * 256)))
unfolding find_loop
find_loop_round fuel p n type i t lo hi go e0 e1 e2 = rw (go, e0, e1, e2)

pub find_loop_stop :
    (fuel : ℕ) (p : List ℕ) (n type i : ℕ)
    → leb (i + 3) n ≡ false
    → find_loop (suc fuel) p n type i ≡ some none
unfolding find_loop
find_loop_stop fuel p n type i stop = rw stop

InMessage-later : (n i j : ℕ) (r : Option (ℕ × ℕ)) → i ≤ j → InMessage n j r → InMessage n i r
InMessage-later n i j none h m = tt
InMessage-later n i j (some (off, len)) h m = (omega arith, m.1)

find_loop_total :
    (fuel : ℕ) (p : List ℕ) (n type i : ℕ)
    → n ≤ length p
    → 0 < fuel
    → n < fuel + i
    → (r : Option (ℕ × ℕ)) × (find_loop fuel p n type i ≡ some r) × InMessage n i r
find_loop_total zero p n type i inside some_fuel enough = elim some_fuel [ ]
find_loop_total (suc fuel) p n type i inside some_fuel enough = elim (Bool-cases (leb (i + 3) n)) [
  | inl go ↦
      let room = leb→le (i + 3) n go in
      let (t, e0) = get_elem?-total p i (omega arith) in
      let (lo, e1) = get_elem?-total p (i + 1) (omega arith) in
      let (hi, e2) = get_elem?-total p (i + 2) (omega arith) in
      let l : ℕ = bit_or lo (hi * 256) in
      let (r, e, m) =
        find_loop_total fuel p n type (i + 3 + l) inside (omega arith) (omega arith) in
      rw (find_loop_round fuel p n type i t lo hi go e0 e1 e2)
        (elim (Bool-cases (ltb n (i + 3 + l))) [
          | inl cut ↦ (none, rw cut, tt)
          | inr whole ↦ elim (Bool-cases (t == type)) [
            | inl hit ↦ (some (i + 3, l), rw (whole, hit), (omega arith, ground arith))
            | inr miss ↦ (r, rw (whole, miss) e, InMessage-later n i (i + 3 + l) r (omega arith) m)
          ]
        ])
  | inr stop ↦ (none, find_loop_stop fuel p n type i stop, tt)
]

-- On every input, whatever its bytes, the search ends and reads inside the message, and a found
-- value lies inside the message behind the header.
pub qmi_tlv_find_total :
    (p : List ℕ) (type : ℕ)
    → (r : Option (ℕ × ℕ)) × (qmi_tlv_find p (length p) type ≡ some r) × InMessage (length p) 7 r
unfolding qmi_tlv_find
qmi_tlv_find_total p type =
    find_loop_total (length p + 1) p (length p) type 7 (omega arith) (omega arith) (omega arith)

result_at_total :
    (p : List ℕ) (r : Option (ℕ × ℕ))
    → InMessage (length p) 7 r
    → (rc : ℤ) × (result_at p r ≡ some rc)
unfolding result_at
result_at_total p none m = (negsuc 0, refl)
result_at_total p (some (off, len)) m = elim (Bool-cases (ltb len 4)) [
  | inl short ↦ (negsuc 0, rw short)
  | inr long ↦
      let room : 4 ≤ len = ground arith in
      let (lo, e1) = get_elem?-total p (off + 2) (omega (arith, m.1)) in
      let (hi, e2) = get_elem?-total p (off + 3) (omega (arith, m.1)) in
      (pos (bit_or lo (hi * 256)), rw (long, e1, e2))
]

-- The error code of any reply is read without a fault.
pub qmi_result_total : (p : List ℕ) → (rc : ℤ) × (qmi_result p (length p) ≡ some rc)
unfolding qmi_result
qmi_result_total p =
    let (r, e, m) = qmi_tlv_find_total p 0x02 in
    let (rc, e') = result_at_total p r m in (rc, rw e e')

u32_at_total :
    (p : List ℕ) (r : Option (ℕ × ℕ))
    → InMessage (length p) 7 r
    → (v : Option ℕ) × (u32_at p r ≡ some v)
unfolding u32_at
u32_at_total p none m = (none, refl)
u32_at_total p (some (off, len)) m = elim (Bool-cases (ltb len 4)) [
  | inl short ↦ (none, rw short)
  | inr long ↦
      let room : 4 ≤ len = ground arith in
      let (b0, e0) = get_elem?-total p off (omega (arith, m.1)) in
      let (b1, e1) = get_elem?-total p (off + 1) (omega (arith, m.1)) in
      let (b2, e2) = get_elem?-total p (off + 2) (omega (arith, m.1)) in
      let (b3, e3) = get_elem?-total p (off + 3) (omega (arith, m.1)) in
      (
        some (bit_or (bit_or (bit_or b0 (b1 * 256)) (b2 * 65536)) (b3 * 16777216)),
        rw (long, e0, e1, e2, e3),
      )
]

-- A 32-bit element of any reply is read without a fault.
pub qmi_tlv_get_u32_total :
    (p : List ℕ) (type : ℕ) → (v : Option ℕ) × (qmi_tlv_get_u32 p (length p) type ≡ some v)
unfolding qmi_tlv_get_u32
qmi_tlv_get_u32_total p type =
    let (r, e, m) = qmi_tlv_find_total p type in let (v, e') = u32_at_total p r m in (v, rw e e')
