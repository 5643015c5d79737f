-- ===== src/Stage/Radios.antt =====
-- Which of the radio interfaces of a reply vendor-init/stage_nas_rat.c takes.
use postmarketos_x00td_cellu.Common.{
  ℕ, ◌+◌, ◌-◌, ◌≡◌, sym, ap, ◌∙◌, Bool, false, not, ◌&&◌, ◌||◌, none, some, List, [], ◌∷◌, ◌++◌,
  append_assoc, length, length-append, get_elem?-append_at, ltb, ◌==◌, if◌then◌else◌, inl, inr,
  Bool-cases, arith,
}
use postmarketos_x00td_cellu.Common.Fault.{read}
use postmarketos_x00td_cellu.Qmi.Wire.{Tlv, encode, message, Fits, first}
use postmarketos_x00td_cellu.Qmi.RoundTrip.{
  qmi_tlv_find-encode, qmi_tlv_find-absent, qmi_result-encode,
}
use postmarketos_x00td_cellu.Request.Messages.{radio_if_lte, radio_if_umts}
use postmarketos_x00td_cellu.Stage.ServingSystem.{pick_loop, radio_at, serving_radio}

abbrev pub occurs : ℕ → List ℕ → Bool
occurs x [] = false
occurs x (y ∷ ys) = (y == x) || occurs x ys

-- LTE if it is in the list; else UMTS, if it is behind the first; else the first.
abbrev pub best_radio : ℕ → List ℕ → ℕ
best_radio r rest =
    if (r == radio_if_lte) || occurs radio_if_lte rest
    then radio_if_lte
    else if occurs radio_if_umts rest
    then radio_if_umts
    else r

best_radio_cons :
    (best r : ℕ) (rest : List ℕ)
    → (r == radio_if_lte) ≡ false
    → best_radio
        (if (r == radio_if_umts) && not (best == radio_if_lte) then radio_if_umts else best)
        rest
      ≡ best_radio best (r ∷ rest)
best_radio_cons best r rest e = ground (arith, e)

pick_loop-best_radio :
    (rest before after : List ℕ) (resp : List ℕ) (at best : ℕ)
    → resp ≡ before ++ (rest ++ after)
    → at ≡ length before
    → pick_loop (length rest) resp at best ≡ some (best_radio best rest)
unfolding pick_loop
pick_loop-best_radio [] before after resp at best split e = ground arith
pick_loop-best_radio (r ∷ rest) before after resp at best split e =
    let here : read resp at ≡ some r =
      ap (λ p. read p at) split
      ∙ get_elem?-append_at before (r ∷ (rest ++ after)) at 0 (omega arith) in
    elim (Bool-cases (r == radio_if_lte)) [
      | inl lte ↦ rw (here, lte) (ap some (ground (arith, lte)))
      | inr other ↦
          let next : ℕ =
            if (r == radio_if_umts) && not (best == radio_if_lte) then radio_if_umts else best in
          let step : pick_loop (length (r ∷ rest)) resp at best
              ≡ pick_loop (length rest) resp (at + 1) next =
            rw (here, other) in
          step
          ∙ pick_loop-best_radio rest (before ++ r ∷ []) after resp (at + 1) next
              (split ∙ sym (append_assoc before (r ∷ []) (rest ++ after)))
              (omega (arith, length-append before (r ∷ [])))
          ∙ ap some (best_radio_cons best r rest other)
    ]

-- The element "Serving System" is four bytes, the count, and the interfaces.
radio_at-best_radio :
    (before after more resp : List ℕ) (off s0 s1 s2 s3 r : ℕ) (rest : List ℕ)
    → resp ≡ before ++ ((s0 ∷ s1 ∷ s2 ∷ s3 ∷ length (r ∷ rest) ∷ r ∷ rest ++ more) ++ after)
    → off ≡ length before
    → radio_at resp (some (off, length (s0 ∷ s1 ∷ s2 ∷ s3 ∷ length (r ∷ rest) ∷ r ∷ rest ++ more)))
      ≡ some (best_radio r rest)
unfolding radio_at
radio_at-best_radio before after more resp off s0 s1 s2 s3 r rest split e =
    let v : List ℕ = s0 ∷ s1 ∷ s2 ∷ s3 ∷ length (r ∷ rest) ∷ r ∷ rest ++ more in
    let front : List ℕ = s0 ∷ s1 ∷ s2 ∷ s3 ∷ length (r ∷ rest) ∷ r ∷ [] in
    let long : ltb (length v) 5 ≡ false = ground arith in
    let count : read resp (off + 4) ≡ some (length (r ∷ rest)) =
      ap (λ p. read p (off + 4)) split
      ∙ get_elem?-append_at before (v ++ after) (off + 4) 4 (omega arith) in
    let best : read resp (off + 5) ≡ some r =
      ap (λ p. read p (off + 5)) split
      ∙ get_elem?-append_at before (v ++ after) (off + 5) 5 (omega arith) in
    let size : length resp ≡ length before + (6 + (length rest + length more) + length after) =
      omega (
        arith,
        ap length split,
        length-append before (v ++ after),
        length-append (rest ++ more) after,
        length-append rest more,
      ) in
    let good : ((length (r ∷ rest) == 0) || ltb (length resp) (off + 5 + length (r ∷ rest)))
        ≡ false =
      ground arith in
    let left : length (r ∷ rest) - 1 ≡ length rest = omega arith in
    rw (long, count, good, best, left)
      (pick_loop-best_radio rest (before ++ front) (more ++ after) resp (off + 6) r
        (split ∙ simp append_assoc) (omega (arith, length-append before front)))

-- From a successful reply whose elements fit, without a tracking area code, whose element "Serving
-- System" holds at least one radio interface, the program takes LTE if it is among them, else UMTS if it is behind
-- the first, else the first. Bytes behind the interfaces do not matter.
pub serving_radio-encode :
    (flag txid msg_id s0 s1 s2 s3 r : ℕ) (rest more : List ℕ) (tlvs : List Tlv)
    → Fits tlvs
    → first 0x02 tlvs ≡ some (0 ∷ 0 ∷ 0 ∷ 0 ∷ [])
    → first 0x15 tlvs ≡ none
    → first 0x01 tlvs ≡ some (s0 ∷ s1 ∷ s2 ∷ s3 ∷ length (r ∷ rest) ∷ r ∷ rest ++ more)
    → serving_radio (message flag txid msg_id (encode tlvs)) ≡ some (best_radio r rest)
unfolding serving_radio
serving_radio-encode flag txid msg_id s0 s1 s2 s3 r rest more tlvs fits result tac system =
    let v : List ℕ = s0 ∷ s1 ∷ s2 ∷ s3 ∷ length (r ∷ rest) ∷ r ∷ rest ++ more in
    let (off, before, after, e, split, at) =
      qmi_tlv_find-encode flag txid msg_id 0x01 tlvs fits v system in
    rw
      (
        qmi_result-encode flag txid msg_id 0 0 0 0 [] tlvs fits result (omega arith),
        qmi_tlv_find-absent flag txid msg_id 0x15 tlvs fits tac,
        e,
      )
      (radio_at-best_radio before after more (message flag txid msg_id (encode tlvs)) off s0 s1 s2
        s3 r rest split at)
