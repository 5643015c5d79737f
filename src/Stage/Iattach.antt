-- ===== src/Stage/Iattach.antt =====
-- vendor-init/stage_iattach.c: the APN of the initial attach. main does not run this stage.
use postmarketos_x00td_cellu.Qrtr.{qrtr_svc_wds}
use postmarketos_x00td_cellu.Request.Limits.{initial_attach_request_lem}
use postmarketos_x00td_cellu.Request.Messages.{msg_set_initial_attach_apn, initial_attach_request}
use postmarketos_x00td_cellu.Stage.Kit.{
  arith, ℕ, ◌≤◌, refl, not, List, length, ◌==◌, codes, show_u, show_d, Ctx, StageFn, fd_arg,
  next_txid, ◌>>◌, pure, lift, ◌>>=◌, if◌then◌else◌, on_some, Kernel, Brings, Brings-pure,
  Brings-if, Brings-on_some, then_quiet, then_lift, qmi_result_total, qmi_result, qrtr_lookup,
  qrtr_txn, qrtr_lookup-Quiet, qrtr_txn-Quiet, array, length-array, Closed, state_record,
  state_record-Quiet,
}

module _ ⦃K : Kernel⦄ where
  -- The request and its reply; an error of the modem is not one of the stage.
  unfoldable pub send_iattach : StageFn
  send_iattach ctx = do
    req ← lift (initial_attach_request (array 256) ctx.txid ctx.apn)
    let ctx' : Ctx = record ctx { txid = next_txid ctx.txid }
    reply ← qrtr_txn (fd_arg ctx'.fd) 0 ctx'.wds_port req msg_set_initial_attach_apn 512 2000
    on_some reply (pure (2, ctx')) λ resp. do
      rc ← lift (qmi_result resp (length resp))
      state_record (codes "iattach_result") (show_d rc)
      pure (0, ctx')

  unfoldable pub stage_iattach : StageFn
  unfolding send_iattach
  stage_iattach ctx =
      if ctx.dry_run
      then pure (0, ctx)
      else if not (ctx.wds_port == 0)
      then send_iattach ctx
      else do
        port ← qrtr_lookup (fd_arg ctx.fd) qrtr_svc_wds
        let ctx' : Ctx = record ctx { wds_port = port }
        if port == 0
            then pure (1, ctx')
            else do state_record (codes "wds_port") (show_u port); send_iattach ctx'

  send_iattach-Closed :
      (ctx : Ctx) (fds : List ℕ)
      → length ctx.apn ≤ 242
      → Brings fds (send_iattach ctx) (Closed ctx fds)
  unfolding send_iattach
  send_iattach-Closed ctx fds short =
      then_lift _ _ _
        (initial_attach_request_lem (array 256) ctx.txid ctx.apn (length-array 256) short)
        (then_quiet _ _ (qrtr_txn-Quiet _ 0 ctx.wds_port _ msg_set_initial_attach_apn 512 2000)
          λ reply.
            Brings-on_some _ _ _ (λ _. Brings-pure _ (refl, refl, refl, omega arith))
              λ resp _.
                let (rc, e) = qmi_result_total resp in
                then_lift _ _ rc e (
                  then_quiet _ _ (state_record-Quiet _ _)
                    λ _. Brings-pure _ (refl, refl, refl, omega arith)))

  -- With an APN of at most 242 bytes, whatever the kernel and the modem answer, the stage returns
  -- without a fault; the descriptors that are open then are those that were open before, and the
  -- context keeps its bearer socket and its APN; the exit code is at most 3.
  pub stage_iattach-Closed :
      (ctx : Ctx) (fds : List ℕ)
      → length ctx.apn ≤ 242
      → Brings fds (stage_iattach ctx) (Closed ctx fds)
  unfolding stage_iattach
  stage_iattach-Closed ctx fds short =
      Brings-if _ _ _ (λ _. Brings-pure _ (refl, refl, refl, omega arith))
        λ _.
          Brings-if _ _ _ (λ _. send_iattach-Closed ctx fds short)
            λ _. then_quiet _ _ (qrtr_lookup-Quiet _ qrtr_svc_wds) λ port.
              Brings-if _ _ _ (λ _. Brings-pure _ (refl, refl, refl, omega arith))
                λ _.
                  then_quiet _ _ (state_record-Quiet _ _)
                    λ _. send_iattach-Closed (record ctx { wds_port = port }) fds short
