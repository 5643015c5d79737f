-- ===== src/Stage/DmsOnline.antt =====
-- vendor-init/stage_dms_online.c: bring the modem to operating mode ONLINE.
use mathlib.Core.Bool.{cond}
use postmarketos_x00td_cellu.Common.{get_elem?-total}
use postmarketos_x00td_cellu.Common.Fault
use postmarketos_x00td_cellu.Qrtr.{qrtr_svc_dms}
use postmarketos_x00td_cellu.Request.Messages.{
  msg_dms_get_operating_mode, msg_dms_set_operating_mode, get_mode_request, set_mode_request,
}
use postmarketos_x00td_cellu.Request.Bytes.{get_mode_request_lem, set_mode_request_lem}
use postmarketos_x00td_cellu.Qmi.Find.{InMessage}
use postmarketos_x00td_cellu.Stage.Kit.{
  ℕ, ◌≡◌, refl, not, Option, none, some, List, ◌∷◌, ◌++◌, length, ◌==◌, ltb, arith, inl, inr,
  Bool-cases, is_zero, codes, show_u, show_d, Ctx, StageFn, Kernel, Cmd, pure, lift, emit, ◌>>=◌,
  ◌>>◌, if◌then◌else◌, on_some, close, usleep, Brings, Brings-pure, Brings-if, Brings-on_some,
  then_quiet, then_lift, then_open, then_close_last, Quiet-emit, qmi_result_total,
  qmi_tlv_find_total, qmi_tlv_find, qmi_result, qrtr_open, qrtr_lookup, qrtr_txn, qrtr_lookup-Quiet,
  qrtr_txn-Quiet, array, length-array, Closed, state_record, state_record-Quiet,
}

unfoldable pub mode_name : ℕ → List ℕ
mode_name m = cond (m == 0x00) (codes "ONLINE") (
    cond (m == 0x01) (codes "LOW_POWER") (
      cond (m == 0x02) (codes "FACTORY_TEST") (
        cond (m == 0x03) (codes "OFFLINE") (
          cond (m == 0x04) (codes "RESET") (
            cond (m == 0x05) (codes "SHUTTING_DOWN")
              (cond (m == 0x06) (codes "PERSISTENT_LOW_POWER") (codes "UNKNOWN")))))))

-- The mode in the reply, or 0xFF.
mode_at : List ℕ → Option (ℕ × ℕ) → Option ℕ
mode_at resp none = some 0xff
mode_at resp (some (off, len)) = cond (ltb 0 len) (Fault.read resp off) (some 0xff)

unfoldable pub current_mode : List ℕ → Option ℕ
unfolding mode_at
current_mode resp = Fault.◌>>=◌ (qmi_tlv_find resp (length resp) 0x01) (mode_at resp)

mode_at_total :
    (resp : List ℕ) (r : Option (ℕ × ℕ))
    → InMessage (length resp) 7 r
    → (m : ℕ) × (mode_at resp r ≡ some m)
unfolding mode_at
mode_at_total resp none h = (0xff, refl)
mode_at_total resp (some (off, len)) h = elim (Bool-cases (ltb 0 len)) [
  | inl long ↦ let (m, e) = get_elem?-total resp off (ground (arith, h.1)) in (m, rw long e)
  | inr short ↦ (0xff, rw short)
]

current_mode_total : (resp : List ℕ) → (m : ℕ) × (current_mode resp ≡ some m)
unfolding current_mode
current_mode_total resp =
    let (r, e, h) = qmi_tlv_find_total resp 0x01 in
    let (m, e') = mode_at_total resp r h in (m, rw e e')

module _ ⦃K : Kernel⦄ where
  -- The second transaction, and what follows it.
  unfoldable pub set_online : ℕ → ℕ → Ctx → Cmd (ℕ × Ctx)
  set_online fd port ctx = do
    req ← lift (set_mode_request (array 64) 2)
    reply ← qrtr_txn fd 0 port req msg_dms_set_operating_mode 256 5000
    on_some reply (emit (close fd) >> pure (2, ctx)) λ resp. do
      rc ← lift (qmi_result resp (length resp))
      emit (close fd)
      state_record (codes "dms_set_online_result") (show_d rc)
      if not (is_zero rc) then pure (3, ctx) else do emit (usleep 500000); pure (0, ctx)

  unfoldable pub stage_dms_online : StageFn
  unfolding set_online
  stage_dms_online ctx = if ctx.dry_run then pure (0, ctx) else do
    opened ← qrtr_open
    on_some opened (pure (1, ctx)) λ fd. do
      port ← qrtr_lookup fd qrtr_svc_dms
      if port == 0 then emit (close fd) >> pure (1, ctx) else do
        state_record (codes "dms_port") (show_u port)
        req ← lift (get_mode_request (array 64) 1)
        reply ← qrtr_txn fd 0 port req msg_dms_get_operating_mode 256 2000
        on_some reply (emit (close fd) >> pure (2, ctx)) λ resp. do
          rc ← lift (qmi_result resp (length resp))
          if not (is_zero rc)
              then (do
                state_record (codes "dms_mode_before") (codes "GET_ERR_" ++ show_d rc)
                emit (close fd)
                pure (0, ctx))
              else do
                current ← lift (current_mode resp)
                state_record (codes "dms_mode_before")
                    (show_u current ++ (codes " (" ++ (mode_name current ++ codes ")")))
                if current == 0 then emit (close fd) >> pure (0, ctx) else set_online fd port ctx

  set_online-Closed :
      (fd port : ℕ) (ctx : Ctx) (fds : List ℕ)
      → Brings (fd ∷ fds) (set_online fd port ctx) (Closed ctx fds)
  unfolding set_online
  set_online-Closed fd port ctx fds =
      then_lift _ _ _ (set_mode_request_lem (array 64) 2 (length-array 64)) (
        then_quiet _ _ (qrtr_txn-Quiet fd 0 port _ msg_dms_set_operating_mode 256 5000) λ reply.
          Brings-on_some _ _ _
            (λ _. then_close_last _ _ (Brings-pure _ (refl, refl, refl, omega arith)))
            λ resp _.
              let (rc, e) = qmi_result_total resp in
              then_lift _ _ rc e (
                then_close_last _ _ (
                  then_quiet _ _ (state_record-Quiet _ _) λ _.
                    Brings-if _ _ _ (λ _. Brings-pure _ (refl, refl, refl, omega arith))
                      λ _.
                        then_quiet _ _ (Quiet-emit (usleep 500000) tt)
                          λ _. Brings-pure _ (refl, refl, refl, omega arith))))

  -- Whatever the kernel and the modem answer, the stage returns without a fault; the descriptors
  -- that are open then are those that were open before, and the context keeps its bearer socket and
  -- its APN; the exit code is at most 3.
  pub stage_dms_online-Closed :
      (ctx : Ctx) (fds : List ℕ) → Brings fds (stage_dms_online ctx) (Closed ctx fds)
  unfolding stage_dms_online qrtr_open
  stage_dms_online-Closed ctx fds =
      Brings-if _ _ _ (λ _. Brings-pure _ (refl, refl, refl, omega arith))
        λ _. then_open _ _ (Brings-pure _ (refl, refl, refl, omega arith)) λ fd.
          then_quiet _ _ (qrtr_lookup-Quiet fd qrtr_svc_dms) λ port.
            Brings-if _ _ _
              (λ _. then_close_last _ _ (Brings-pure _ (refl, refl, refl, omega arith)))
              λ _. then_quiet _ _ (state_record-Quiet _ _) λ _.
                then_lift _ _ _
                  (get_mode_request_lem (array 64) 1 64 (length-array 64) (omega arith))
                  (then_quiet _ _ (qrtr_txn-Quiet fd 0 port _ msg_dms_get_operating_mode 256 2000)
                    λ reply.
                      Brings-on_some _ _ _
                        (λ _. then_close_last _ _ (Brings-pure _ (refl, refl, refl, omega arith)))
                        λ resp _.
                          let (rc, e) = qmi_result_total resp in
                          then_lift _ _ rc e (
                            Brings-if _ _ _
                              (λ _. then_quiet _ _ (state_record-Quiet _ _) λ _.
                                then_close_last _ _ (Brings-pure _ (refl, refl, refl, omega arith)))
                              λ _.
                                let (m, e') = current_mode_total resp in
                                then_lift _ _ m e' (
                                  then_quiet _ _ (state_record-Quiet _ _) λ _.
                                    Brings-if _ _ _
                                      (λ _.
                                        then_close_last _ _
                                          (Brings-pure _ (refl, refl, refl, omega arith)))
                                      λ _. set_online-Closed fd port ctx fds)))
