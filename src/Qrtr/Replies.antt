-- ===== src/Qrtr/Replies.antt =====
-- vendor-init/qrtr.c: a transaction, datagram by datagram.
use postmarketos_x00td_cellu.Common.{
  ℕ, zero, suc, ◌+◌, ◌*◌, ◌≤◌, ◌≡◌, ap, ◌∙◌, ◌&&◌, ◌==◌, inl, inr, Bool-cases, Option-cases, Option,
  none, some, List, ◌∷◌, length, get_elem?-total, length-take, take, ltb, bit_or, arith,
}
use postmarketos_x00td_cellu.Common.Fault.{read}
use postmarketos_x00td_cellu.Host.{
  qmi, sendto, poll, recv_qmi, Kernel, World, Run, ok, fault, stuck, Cmd, lift, ask, ◌>>=◌,
  if◌then◌else◌, on_some,
}
use postmarketos_x00td_cellu.Host.Rules.{
  Quiet, Quiet-pure, Quiet-ask, Quiet-lift, Quiet-if, Quiet-bind, Quiet-on_some,
}
use postmarketos_x00td_cellu.Qrtr.{check_reply, txn_loop, qrtr_txn}

-- A QMI response to the message, whole in the caller's buffer.
pub record IsReply (msg_id resp_sz : ℕ) (resp : List ℕ) : Type 0 where
  pub long : 5 ≤ length resp
  pub fits : length resp ≤ resp_sz
  pub control : read resp 0 ≡ some 0x02
  pub lo : ℕ
  pub hi : ℕ
  pub low_byte : read resp 3 ≡ some lo
  pub high_byte : read resp 4 ≡ some hi
  pub names : bit_or lo (hi * 256) ≡ msg_id

abbrev pub Answers : ℕ → ℕ → Option (List ℕ) → Type 0
Answers msg_id resp_sz none = Unit
Answers msg_id resp_sz (some resp) = IsReply msg_id resp_sz resp

module _ ⦃K : Kernel⦄ where
  -- `m` returns an answer to the message within `calls` system calls.
  abbrev pub AnswersWithin : ℕ → ℕ → ℕ → World → Run (Option (List ℕ)) → Type 0
  AnswersWithin msg_id resp_sz calls w (ok r w') =
      Answers msg_id resp_sz r × (length w'.history ≤ length w.history + calls)
  AnswersWithin msg_id resp_sz calls w _ = ⊥

  AnswersWithin-later :
      (msg_id resp_sz calls total : ℕ) (w v : World) (r : Run (Option (List ℕ)))
      → length v.history + calls ≤ length w.history + total
      → AnswersWithin msg_id resp_sz calls v r
      → AnswersWithin msg_id resp_sz total w r
  AnswersWithin-later msg_id resp_sz calls total w v (ok r w') h (a, n) = (a, omega arith)
  AnswersWithin-later msg_id resp_sz calls total w v fault h a = a
  AnswersWithin-later msg_id resp_sz calls total w v stuck h a = a

  check_reply-AnswersWithin :
      (msg_id resp_sz calls : ℕ) (next : Cmd (Option (List ℕ))) (resp : List ℕ) (w : World)
      → length resp ≤ resp_sz
      → AnswersWithin msg_id resp_sz calls w (next w)
      → AnswersWithin msg_id resp_sz calls w (check_reply msg_id next resp w)
  unfolding check_reply ◌>>=◌
  check_reply-AnswersWithin msg_id resp_sz calls next resp w fits h =
      elim (Bool-cases (ltb (length resp) 5)) [
        | inl short ↦ rw short h
        | inr whole ↦
            let long : 5 ≤ length resp = ground arith in
            let (lo, e3) = get_elem?-total resp 3 (omega arith) in
            let (hi, e4) = get_elem?-total resp 4 (omega arith) in
            let (ctl, e0) = get_elem?-total resp 0 (omega arith) in
            elim (Bool-cases ((ctl == 0x02) && (bit_or lo (hi * 256) == msg_id))) [
              | inl hit ↦
                  let response : ctl ≡ 0x02 = ground arith in
                  rw (whole, e3, e4, e0, hit)
                    (
                      record {
                        long = long;
                        fits = fits;
                        control = e0 ∙ ap some response;
                        lo = lo;
                        hi = hi;
                        low_byte = e3;
                        high_byte = e4;
                        names = ground arith;
                      },
                      omega arith,
                    )
              | inr miss ↦ rw (whole, e3, e4, e0, miss) h
            ]
      ]

  txn_loop-AnswersWithin :
      (tries fd msg_id resp_sz timeout_ms : ℕ) (w : World)
      → AnswersWithin msg_id resp_sz (2 * tries) w (txn_loop tries fd msg_id resp_sz timeout_ms w)
  unfolding txn_loop ◌>>=◌ on_some
  txn_loop-AnswersWithin zero fd msg_id resp_sz timeout_ms w = (tt, omega arith)
  txn_loop-AnswersWithin (suc tries) fd msg_id resp_sz timeout_ms w =
      let w1 : World = record w { history = poll fd timeout_ms ∷ w.history } in
      let w2 : World = record w1 { history = recv_qmi fd resp_sz ∷ w1.history } in
      let next = txn_loop tries fd msg_id resp_sz timeout_ms in
      let ih = txn_loop-AnswersWithin tries fd msg_id resp_sz timeout_ms w2 in
      elim (Bool-cases (K.poll w1.history)) [
        | inl ready ↦ elim (Option-cases (K.recv_qmi w2.history)) [
          | inl failed ↦
              rw (ready, failed)
                (AnswersWithin-later msg_id resp_sz (2 * tries) (2 * suc tries) w w2 (next w2)
                  (omega arith) ih)
          | inr (datagram, got) ↦
              rw (ready, got)
                (AnswersWithin-later msg_id resp_sz (2 * tries) (2 * suc tries) w w2
                  (check_reply msg_id next (take resp_sz datagram) w2) (omega arith)
                  (check_reply-AnswersWithin msg_id resp_sz (2 * tries) next (take resp_sz datagram)
                    w2 (omega (arith, length-take resp_sz datagram)) ih))
        ]
        | inr timeout ↦ rw timeout (tt, omega arith)
      ]

  -- A transaction returns within 65 system calls, never with a fault; a reply that it returns is a
  -- response to the message, of at least 5 bytes, inside the caller's buffer.
  pub qrtr_txn-AnswersWithin :
      (fd node port : ℕ) (req : List ℕ) (msg_id resp_sz timeout_ms : ℕ) (w : World)
      → AnswersWithin msg_id resp_sz 65 w (qrtr_txn fd node port req msg_id resp_sz timeout_ms w)
  unfolding qrtr_txn ◌>>=◌
  qrtr_txn-AnswersWithin fd node port req msg_id resp_sz timeout_ms w =
      let w1 : World = record w { history = sendto fd node port (qmi req) ∷ w.history } in
      elim (Bool-cases (K.sendto w1.history)) [
        | inl sent ↦ rw sent (
            AnswersWithin-later msg_id resp_sz 64 65 w w1
              (txn_loop 32 fd msg_id resp_sz timeout_ms w1) (omega arith)
              (txn_loop-AnswersWithin 32 fd msg_id resp_sz timeout_ms w1))
        | inr failed ↦ rw failed (tt, omega arith)
      ]

  next_or_Quiet :
      (msg_id : ℕ) (next : Cmd (Option (List ℕ))) (resp : List ℕ)
      → Quiet next
      → Quiet (check_reply msg_id next resp)
  unfolding check_reply if◌then◌else◌
  next_or_Quiet msg_id next resp q = elim (Bool-cases (ltb (length resp) 5)) [
    | inl short ↦ rw short q
    | inr whole ↦
        let long : 5 ≤ length resp = ground arith in
        let (lo, e3) = get_elem?-total resp 3 (omega arith) in
        let (hi, e4) = get_elem?-total resp 4 (omega arith) in
        let (ctl, e0) = get_elem?-total resp 0 (omega arith) in
        rw whole (
          Quiet-bind (lift (read resp 3)) _ (Quiet-lift _ lo e3) λ l.
            Quiet-bind (lift (read resp 4)) _ (Quiet-lift _ hi e4) λ h.
              Quiet-bind (lift (read resp 0)) _ (Quiet-lift _ ctl e0)
                λ c. Quiet-if _ _ _ (Quiet-pure (some resp)) q)
  ]

  txn_loop-Quiet :
      (tries fd msg_id resp_sz timeout_ms : ℕ) → Quiet (txn_loop tries fd msg_id resp_sz timeout_ms)
  unfolding txn_loop
  txn_loop-Quiet zero fd msg_id resp_sz timeout_ms = Quiet-pure none
  txn_loop-Quiet (suc tries) fd msg_id resp_sz timeout_ms =
      let ih = txn_loop-Quiet tries fd msg_id resp_sz timeout_ms in
      Quiet-bind (ask (poll fd timeout_ms) K.poll) _ (Quiet-ask _ _ tt) λ ready.
        Quiet-if _ _ _ (Quiet-pure none) (
          Quiet-bind (ask (recv_qmi fd resp_sz) K.recv_qmi) _ (Quiet-ask _ _ tt) λ received.
            Quiet-on_some received _ _ ih (λ d. next_or_Quiet msg_id _ (take resp_sz d) ih))

  pub qrtr_txn-Quiet :
      (fd node port : ℕ) (req : List ℕ) (msg_id resp_sz timeout_ms : ℕ)
      → Quiet (qrtr_txn fd node port req msg_id resp_sz timeout_ms)
  unfolding qrtr_txn
  qrtr_txn-Quiet fd node port req msg_id resp_sz timeout_ms =
      Quiet-bind (ask (sendto fd node port (qmi req)) K.sendto) _ (Quiet-ask _ _ tt)
        λ sent. Quiet-if _ _ _ (Quiet-pure none) (txn_loop-Quiet 32 fd msg_id resp_sz timeout_ms)
