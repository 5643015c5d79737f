-- ===== src/Stage/ServingSystem.antt =====
-- vendor-init/stage_nas_rat.c: what poll_serving_system reads out of the reply.
use mathlib.Core.Bool.{cond}
use postmarketos_x00td_cellu.Common.{
  ℕ, zero, suc, ◌+◌, ◌-◌, ◌≤◌, ◌≡◌, refl, not, ◌&&◌, ◌||◌, Option, none, some, List, ◌∷◌, length,
  ltb, ◌==◌, if◌then◌else◌, inl, inr, Bool-cases, get_elem?-total, arith,
}
use postmarketos_x00td_cellu.Common.Fault.{◌>>=◌, read}
use postmarketos_x00td_cellu.Common.Int.{is_zero}
use postmarketos_x00td_cellu.Common.Text.{codes, show_u}
use postmarketos_x00td_cellu.Qmi.{qmi_tlv_find, qmi_result}
use postmarketos_x00td_cellu.Qmi.Find.{InMessage, qmi_tlv_find_total, qmi_result_total}
use postmarketos_x00td_cellu.Request.Messages.{
  radio_if_none, radio_if_gsm, radio_if_umts, radio_if_lte,
}

unfoldable pub radio_if_name : ℕ → List ℕ
radio_if_name r = cond (r == radio_if_none) (codes "none") (
    cond (r == radio_if_gsm) (codes "gsm") (
      cond (r == radio_if_umts) (codes "umts")
        (cond (r == radio_if_lte) (codes "lte") (codes "unknown"))))

-- "%d" of an int8_t that stands as its byte.
unfoldable pub show_s8 : ℕ → List ℕ
show_s8 r = cond (ltb r 128) (show_u r) (b'-' ∷ show_u (256 - r))

-- `for (i = 1; i < count; i++)`, from the byte at `at` on.
unfoldable pub pick_loop : ℕ → List ℕ → ℕ → ℕ → Option ℕ
pick_loop zero resp at best = some best
pick_loop (suc left) resp at best = do
  r ← read resp at
  let rest =
      pick_loop left resp (at + 1)
        (if (r == radio_if_umts) && not (best == radio_if_lte) then radio_if_umts else best)
  if r == radio_if_lte then some radio_if_lte else rest

-- The radio interfaces of the element "Serving System" at `off`.
unfoldable pub radio_at : List ℕ → Option (ℕ × ℕ) → Option ℕ
unfolding pick_loop
radio_at resp none = some radio_if_none
radio_at resp (some (off, len)) = if ltb len 5 then some radio_if_none else do
  count ← read resp (off + 4)
  if (count == 0) || ltb (length resp) (off + 5 + count)
      then some radio_if_none
      else do best ← read resp (off + 5); pick_loop (count - 1) resp (off + 6) best

-- The tracking area code of LTE settles it.
unfoldable pub unless_tac : List ℕ → Option (ℕ × ℕ) → Option ℕ
unfolding radio_at
unless_tac resp (some _) = some radio_if_lte
unless_tac resp none = do found ← qmi_tlv_find resp (length resp) 0x01; radio_at resp found

-- The radio interface, as the byte of an int8_t.
unfoldable pub serving_radio : List ℕ → Option ℕ
unfolding unless_tac
serving_radio resp = do
  rc ← qmi_result resp (length resp)
  if not (is_zero rc)
      then some radio_if_none
      else do tac ← qmi_tlv_find resp (length resp) 0x15; unless_tac resp tac

pick_loop_total :
    (left : ℕ) (resp : List ℕ) (at best : ℕ)
    → at + left ≤ length resp
    → (r : ℕ) × (pick_loop left resp at best ≡ some r)
unfolding pick_loop
pick_loop_total zero resp at best h = (best, refl)
pick_loop_total (suc left) resp at best h =
    let (r, e) = get_elem?-total resp at (omega arith) in
    let (r', e') =
      pick_loop_total left resp (at + 1)
        (if (r == radio_if_umts) && not (best == radio_if_lte) then radio_if_umts else best)
        (omega arith) in
    elim (Bool-cases (r == radio_if_lte)) [
      | inl lte ↦ (radio_if_lte, rw (e, lte))
      | inr other ↦ (r', rw (e, other) e')
    ]

radio_at_total :
    (resp : List ℕ) (found : Option (ℕ × ℕ))
    → InMessage (length resp) 7 found
    → (r : ℕ) × (radio_at resp found ≡ some r)
unfolding radio_at
radio_at_total resp none h = (radio_if_none, refl)
radio_at_total resp (some (off, len)) h = elim (Bool-cases (ltb len 5)) [
  | inl short ↦ (radio_if_none, rw short)
  | inr long ↦
      let (count, e) = get_elem?-total resp (off + 4) (ground (arith, h.1)) in
      elim (Bool-cases ((count == 0) || ltb (length resp) (off + 5 + count))) [
        | inl bad ↦ (radio_if_none, rw (long, e, bad))
        | inr good ↦
            let b : (1 ≤ count) × (off + 5 + count ≤ length resp) = ground (arith, good) in
            let (best, e') = get_elem?-total resp (off + 5) (omega arith) in
            let (r, e'') = pick_loop_total (count - 1) resp (off + 6) best (omega arith) in
            (r, rw (long, e, good, e') e'')
      ]
]

unless_tac_total : (resp : List ℕ) (tac : Option (ℕ × ℕ)) → (r : ℕ) × (unless_tac resp tac ≡ some r)
unfolding unless_tac
unless_tac_total resp (some _) = (radio_if_lte, refl)
unless_tac_total resp none =
    let (found, e, h) = qmi_tlv_find_total resp 0x01 in
    let (r, e') = radio_at_total resp found h in (r, rw (e) e')

-- Whatever the modem replied, reading the radio interface ends and stays within the reply.
pub serving_radio_total : (resp : List ℕ) → (r : ℕ) × (serving_radio resp ≡ some r)
unfolding serving_radio
serving_radio_total resp =
    let (rc, e) = qmi_result_total resp in
    elim (Bool-cases (is_zero rc)) [
      | inr bad ↦ (radio_if_none, rw (e, bad))
      | inl good ↦
          let (tac, e', _) = qmi_tlv_find_total resp 0x15 in
          let (r, e'') = unless_tac_total resp tac in (r, rw (e, good, e') e'')
    ]
