-- ===== src/Stage/WdaSet.antt =====
-- vendor-init/stage_wda_set.c: the data format of the link.
use postmarketos_x00td_cellu.Common.Fault
use postmarketos_x00td_cellu.Qrtr.{qrtr_svc_wda}
use postmarketos_x00td_cellu.Request.Messages.{msg_wda_set_data_format, set_data_format_request}
use postmarketos_x00td_cellu.Request.Bytes.{set_data_format_request_lem}
use postmarketos_x00td_cellu.Stage.Kit.{
  arith, ℕ, ◌≡◌, refl, Option, none, some, List, length, ◌==◌, is_zero, codes, show_u, Ctx, StageFn,
  Kernel, Cmd, pure, lift, emit, ◌>>=◌, ◌>>◌, if◌then◌else◌, on_some, close, Brings, Brings-pure,
  Brings-if, Brings-on_some, then_quiet, then_lift, then_open, then_close_last, Quiet, Quiet-bind,
  Quiet-lift, qmi_result_total, qmi_tlv_get_u32_total, qmi_result, qmi_tlv_get_u32, qrtr_open,
  qrtr_lookup, qrtr_txn, qrtr_lookup-Quiet, qrtr_txn-Quiet, array, length-array, Closed,
  state_record, state_record-Quiet,
}

-- A variable that starts as 0, after qmi_tlv_get_u32 has had its address.
abbrev or_zero : Option ℕ → ℕ
or_zero none = 0
or_zero (some v) = v

unfoldable pub echoed : List ℕ → ℕ → Option ℕ
echoed resp type =
    Fault.◌>>=◌ (qmi_tlv_get_u32 resp (length resp) type) (λ found. some (or_zero found))

echoed_total : (resp : List ℕ) (type : ℕ) → (v : ℕ) × (echoed resp type ≡ some v)
unfolding echoed
echoed_total resp type = let (v, e) = qmi_tlv_get_u32_total resp type in (or_zero v, rw e)

module _ ⦃K : Kernel⦄ where
  -- The modem's echo is recorded; a downgrade is only logged.
  unfoldable pub record_echo : List ℕ → Cmd (Unit {0})
  record_echo resp = do
    ul ← lift (echoed resp 0x12)
    dl ← lift (echoed resp 0x13)
    dg ← lift (echoed resp 0x15)
    max ← lift (echoed resp 0x16)
    state_record (codes "wda_dl_proto") (show_u dl)
    state_record (codes "wda_ul_proto") (show_u ul)
    state_record (codes "wda_dl_max_size") (show_u max)
    state_record (codes "wda_dl_dgrams") (show_u dg)

  unfoldable pub stage_wda_set : StageFn
  unfolding record_echo
  stage_wda_set ctx = if ctx.dry_run then pure (0, ctx) else do
    opened ← qrtr_open
    on_some opened (pure (1, ctx)) λ fd. do
      port ← qrtr_lookup fd qrtr_svc_wda
      let ctx' : Ctx = record ctx { wda_port = port }
      if port == 0 then emit (close fd) >> pure (1, ctx') else do
        state_record (codes "wda_port") (show_u port)
        req ← lift (set_data_format_request (array 128) 1 ctx.full_ul)
        reply ← qrtr_txn fd 0 port req msg_wda_set_data_format 256 2000
        on_some reply (emit (close fd) >> pure (2, ctx')) λ resp. do
          rc ← lift (qmi_result resp (length resp))
          emit (close fd)
          if is_zero rc then record_echo resp >> pure (0, ctx') else pure (3, ctx')

  record_echo-Quiet : (resp : List ℕ) → Quiet (record_echo resp)
  unfolding record_echo
  record_echo-Quiet resp = Quiet-bind _ _ (echo 0x12) λ _. Quiet-bind _ _ (echo 0x13) λ _.
      Quiet-bind _ _ (echo 0x15) λ _. Quiet-bind _ _ (echo 0x16) λ _.
        Quiet-bind _ _ (state_record-Quiet _ _) λ _.
          Quiet-bind _ _ (state_record-Quiet _ _)
            λ _. Quiet-bind _ _ (state_record-Quiet _ _) λ _. state_record-Quiet _ _
    where
      echo : (type : ℕ) → Quiet (lift (echoed resp type))
      echo type = let (v, e) = echoed_total resp type in Quiet-lift _ v e

  -- Whatever the kernel and the modem answer, the stage returns without a fault; the descriptors
  -- that are open then are those that were open before, and the context keeps its bearer socket and
  -- its APN; the exit code is at most 3.
  pub stage_wda_set-Closed :
      (ctx : Ctx) (fds : List ℕ) → Brings fds (stage_wda_set ctx) (Closed ctx fds)
  unfolding stage_wda_set qrtr_open
  stage_wda_set-Closed ctx fds =
      Brings-if _ _ _ (λ _. Brings-pure _ (refl, refl, refl, omega arith))
        λ _. then_open _ _ (Brings-pure _ (refl, refl, refl, omega arith)) λ fd.
          then_quiet _ _ (qrtr_lookup-Quiet fd qrtr_svc_wda) λ port.
            Brings-if _ _ _
              (λ _. then_close_last _ _ (Brings-pure _ (refl, refl, refl, omega arith)))
              λ _. then_quiet _ _ (state_record-Quiet _ _) λ _.
                then_lift _ _ _
                  (set_data_format_request_lem (array 128) 1 ctx.full_ul (length-array 128))
                  (then_quiet _ _ (qrtr_txn-Quiet fd 0 port _ msg_wda_set_data_format 256 2000)
                    λ reply.
                      Brings-on_some _ _ _
                        (λ _. then_close_last _ _ (Brings-pure _ (refl, refl, refl, omega arith)))
                        λ resp _.
                          let (rc, e) = qmi_result_total resp in
                          then_lift _ _ rc e (
                            then_close_last _ _ (
                              Brings-if _ _ _
                                (λ _.
                                  then_quiet _ _ (record_echo-Quiet resp)
                                    λ _. Brings-pure _ (refl, refl, refl, omega arith))
                                λ _. Brings-pure _ (refl, refl, refl, omega arith))))
