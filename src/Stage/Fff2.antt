-- ===== src/Stage/Fff2.antt =====
-- vendor-init/stage_fff2.c: the request 0xFFF2 for IPv4 and for IPv6. main does not run this stage.
use postmarketos_x00td_cellu.Common.{◌∙◌, sym, subst}
use postmarketos_x00td_cellu.Request.Limits.{fff2_request_lem}
use postmarketos_x00td_cellu.Request.Messages.{msg_fff2, ext_tech_internet, fff2_request}
use postmarketos_x00td_cellu.Stage.Kit.{
  arith, ℕ, ◌≤◌, refl, List, ◌++◌, length, ◌==◌, codes, Ctx, StageFn, fd_arg, next_txid, Cmd, ◌>>◌,
  pure, lift, ◌>>=◌, if◌then◌else◌, on_some, Kernel, Brings, Brings-pure, Brings-if, Brings-on_some,
  then_quiet, then_lift, qmi_result_total, qmi_result, qrtr_txn, qrtr_txn-Quiet, array,
  length-array, Closed, Kept, then_kept, state_record, state_record-Quiet,
}

module _ ⦃K : Kernel⦄ where
  -- It returns 0 in every case.
  unfoldable pub send_one : Ctx → List ℕ → ℕ → ℕ → Cmd Ctx
  send_one ctx apn ip_type ext_tech = do
    req ← lift (fff2_request (array 256) ctx.txid apn ip_type ext_tech)
    let ctx' : Ctx = record ctx { txid = next_txid ctx.txid }
    reply ← qrtr_txn (fd_arg ctx'.fd) 0 ctx'.wds_port req msg_fff2 512 2000
    on_some reply (pure ctx') λ resp. do _ ← lift (qmi_result resp (length resp)); pure ctx'

  unfoldable pub stage_fff2 : StageFn
  unfolding send_one
  stage_fff2 ctx =
      if ctx.dry_run then pure (0, ctx) else if ctx.wds_port == 0 then pure (1, ctx) else do
        c1 ← send_one ctx ctx.apn 0x04 ext_tech_internet
        c2 ← send_one c1 c1.apn 0x06 ext_tech_internet
        state_record (codes "fff2_sent") (c2.apn ++ codes "/v4+v6")
        pure (0, c2)

  send_one-Kept :
      (ctx : Ctx) (apn : List ℕ) (ip_type ext_tech : ℕ) (fds : List ℕ)
      → length apn ≤ 230
      → Brings fds (send_one ctx apn ip_type ext_tech) (Kept ctx fds)
  unfolding send_one
  send_one-Kept ctx apn ip_type ext_tech fds short =
      then_lift _ _ _
        (fff2_request_lem (array 256) ctx.txid apn (length-array 256) ip_type ext_tech short)
        (then_quiet _ _ (qrtr_txn-Quiet _ 0 ctx.wds_port _ msg_fff2 512 2000) λ reply.
          Brings-on_some _ _ _ (λ _. Brings-pure _ (refl, refl, refl))
            λ resp _.
              let (rc, e) = qmi_result_total resp in
              then_lift _ _ rc e (Brings-pure _ (refl, refl, refl)))

  -- With an APN of at most 230 bytes, whatever the kernel and the modem answer, the stage returns
  -- without a fault; the descriptors that are open then are those that were open before, and the
  -- context keeps its bearer socket and its APN; the exit code is at most 3.
  pub stage_fff2-Closed :
      (ctx : Ctx) (fds : List ℕ)
      → length ctx.apn ≤ 230
      → Brings fds (stage_fff2 ctx) (Closed ctx fds)
  unfolding stage_fff2
  stage_fff2-Closed ctx fds short =
      Brings-if _ _ _ (λ _. Brings-pure _ (refl, refl, refl, omega arith))
        λ _.
          Brings-if _ _ _ (λ _. Brings-pure _ (refl, refl, refl, omega arith))
            λ _.
              then_kept ctx _ _ (send_one-Kept ctx ctx.apn 0x04 ext_tech_internet fds short)
                λ c1 f1 a1.
                  then_kept c1 _ _
                    (send_one-Kept c1 c1.apn 0x06 ext_tech_internet fds
                      (subst (λ n. length n ≤ 230) (sym a1) short))
                    λ c2 f2 a2.
                      then_quiet _ _ (state_record-Quiet _ _)
                        λ _. Brings-pure _ (refl, f2 ∙ f1, a2 ∙ a1, omega arith)
