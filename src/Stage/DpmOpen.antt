-- ===== src/Stage/DpmOpen.antt =====
-- vendor-init/stage_dpm_open.c: the Data Port Mapper handshake.
use postmarketos_x00td_cellu.Common.{arith, ℕ, refl, List, length, ◌==◌}
use postmarketos_x00td_cellu.Common.Int.{is_zero}
use postmarketos_x00td_cellu.Common.Text.{codes, show_u, show_d}
use postmarketos_x00td_cellu.Context.{Ctx, StageFn}
use postmarketos_x00td_cellu.Host.{
  close, Kernel, pure, lift, emit, ◌>>=◌, if◌then◌else◌, ◌>>◌, on_some,
}
use postmarketos_x00td_cellu.Host.Rules.{
  Brings, Brings-pure, Brings-if, Brings-on_some, then_quiet, then_lift, then_open, then_close_last,
}
use postmarketos_x00td_cellu.Qmi.{qmi_result}
use postmarketos_x00td_cellu.Qmi.Find.{qmi_result_total}
use postmarketos_x00td_cellu.Qrtr.{qrtr_svc_dpm, qrtr_open, qrtr_lookup, qrtr_txn}
use postmarketos_x00td_cellu.Qrtr.Lookup.{qrtr_lookup-Quiet}
use postmarketos_x00td_cellu.Qrtr.Replies.{qrtr_txn-Quiet}
use postmarketos_x00td_cellu.Request.{array}
use postmarketos_x00td_cellu.Request.Messages.{msg_dpm_open_port_req, open_port_request}
use postmarketos_x00td_cellu.Request.Bytes.{open_port_request_lem}
use postmarketos_x00td_cellu.Request.Rules.{length-array}
use postmarketos_x00td_cellu.Stage.Outcome.{Closed}
use postmarketos_x00td_cellu.State.{state_record}
use postmarketos_x00td_cellu.State.Files.{state_record-Quiet}

module _ ⦃K : Kernel⦄ where
  unfoldable pub stage_dpm_open : StageFn
  stage_dpm_open ctx = if ctx.dry_run then pure (0, ctx) else do
    opened ← qrtr_open
    on_some opened (pure (1, ctx)) λ fd. do
      port ← qrtr_lookup fd qrtr_svc_dpm
      let ctx' : Ctx = record ctx { dpm_port = port }
      if port == 0
          then (do
            state_record (codes "dpm_port") (codes "0 (not found)")
            emit (close fd)
            pure (1, ctx'))
          else do
            state_record (codes "dpm_port") (show_u port)
            req ← lift (open_port_request (array 64) 1)
            reply ← qrtr_txn fd 0 port req msg_dpm_open_port_req 256 2000
            on_some reply (emit (close fd) >> pure (2, ctx')) λ resp. do
              rc ← lift (qmi_result resp (length resp))
              state_record (codes "dpm_open_result") (show_d rc)
              emit (close fd)
              if is_zero rc then pure (0, ctx') else pure (3, ctx')

  -- Whatever the kernel and the modem answer, the stage returns without a fault; the descriptors
  -- that are open then are those that were open before, and the context keeps its bearer socket and
  -- its APN; the exit code is at most 3.
  pub stage_dpm_open-Closed :
      (ctx : Ctx) (fds : List ℕ) → Brings fds (stage_dpm_open ctx) (Closed ctx fds)
  unfolding stage_dpm_open qrtr_open
  stage_dpm_open-Closed ctx fds =
      Brings-if _ _ _ (λ _. Brings-pure _ (refl, refl, refl, omega arith))
        λ _. then_open _ _ (Brings-pure _ (refl, refl, refl, omega arith)) λ fd.
          then_quiet _ _ (qrtr_lookup-Quiet fd qrtr_svc_dpm) λ port.
            Brings-if _ _ _
              (λ _.
                then_quiet _ _ (state_record-Quiet _ _)
                  λ _. then_close_last _ _ (Brings-pure _ (refl, refl, refl, omega arith)))
              λ _. then_quiet _ _ (state_record-Quiet _ _) λ _.
                then_lift _ _ _ (open_port_request_lem (array 64) 1 (length-array 64)) (
                  then_quiet _ _ (qrtr_txn-Quiet fd 0 port _ msg_dpm_open_port_req 256 2000)
                    λ reply.
                      Brings-on_some _ _ _
                        (λ _. then_close_last _ _ (Brings-pure _ (refl, refl, refl, omega arith)))
                        λ resp _.
                          let (rc, e) = qmi_result_total resp in
                          then_lift _ _ rc e (
                            then_quiet _ _ (state_record-Quiet _ _) λ _. then_close_last _ _ (
                              Brings-if _ _ _ (λ _. Brings-pure _ (refl, refl, refl, omega arith))
                                λ _. Brings-pure _ (refl, refl, refl, omega arith))))
