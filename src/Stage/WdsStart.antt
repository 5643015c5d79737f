-- ===== src/Stage/WdsStart.antt =====
-- vendor-init/stage_wds_start.c: the bearer is activated on the socket of the context, and its
-- settings are fetched.
use postmarketos_x00td_cellu.Common.{◌∙◌}
use postmarketos_x00td_cellu.Stage.Outcome.{Kept-on}
use postmarketos_x00td_cellu.Request.Bytes.{
  apn_limit, set_mode_af_request_lem, set_ip_family_request_lem, start_network_request_lem,
  get_settings_request_lem,
}
use postmarketos_x00td_cellu.Request.Messages.{
  msg_af_set_mode, msg_4d_set_ip_family, msg_start_network, msg_get_settings, set_mode_af_request,
  set_ip_family_request, start_network_request, get_settings_request,
}
use postmarketos_x00td_cellu.Stage.Prefix.{prefix_of, prefix_of_total}
use postmarketos_x00td_cellu.Stage.Kit.{
  arith, ℕ, ◌≤◌, ◌≡◌, refl, Option, some, List, ◌++◌, length, ◌==◌, is_zero, codes, show_u, show_d,
  show_x8, show_ip, Ctx, StageFn, fd_arg, next_txid, Cmd, ◌>>◌, pure, lift, ◌>>=◌, if◌then◌else◌,
  on_some, Kernel, Brings, Brings-pure, Brings-if, Brings-on_some, then_quiet, then_lift,
  qmi_result_total, qmi_tlv_get_u32_total, qmi_result, qmi_tlv_get_u32, qrtr_txn, qrtr_txn-Quiet,
  array, length-array, Closed, Kept, then_kept, state_record, state_record-Quiet,
}

module _ ⦃K : Kernel⦄ where
  -- `if (qmi_tlv_get_u32(resp, n, type, &v)) { ... }`
  unfoldable pub on_setting : List ℕ → ℕ → (ℕ → Ctx → Cmd Ctx) → Ctx → Cmd Ctx
  on_setting resp type f ctx = do
    found ← lift (qmi_tlv_get_u32 resp (length resp) type)
    on_some found (pure ctx) λ v. f v ctx

  unfoldable pub record_ipv4 : ℕ → Ctx → Cmd Ctx
  record_ipv4 v ctx = do
    state_record (codes "bearer_ipv4") (show_ip v)
    pure (record ctx { bearer_ipv4 = v })

  unfoldable pub record_gw : ℕ → Ctx → Cmd Ctx
  record_gw v ctx = do
    state_record (codes "bearer_gw") (show_ip v)
    pure (record ctx { bearer_gw = v })

  unfoldable pub record_mask : ℕ → Ctx → Cmd Ctx
  record_mask v ctx = do
    prefix ← lift (prefix_of v)
    state_record (codes "bearer_prefix") (show_u prefix)
    pure (record ctx { bearer_mask = v })

  unfoldable pub record_dns1 : ℕ → Ctx → Cmd Ctx
  record_dns1 v ctx = pure (record ctx { bearer_dns1 = v })

  unfoldable pub record_dns2 : ℕ → Ctx → Cmd Ctx
  record_dns2 v ctx = pure (record ctx { bearer_dns2 = v })

  unfoldable pub record_mtu : ℕ → Ctx → Cmd Ctx
  record_mtu v ctx = do
    state_record (codes "bearer_mtu") (show_u v)
    pure (record ctx { bearer_mtu = v })

  unfoldable pub record_settings : List ℕ → Ctx → Cmd Ctx
  unfolding on_setting record_ipv4 record_gw record_mask record_dns1 record_dns2 record_mtu
  record_settings resp ctx = do
    c1 ← on_setting resp 0x1e record_ipv4 ctx
    c2 ← on_setting resp 0x20 record_gw c1
    c3 ← on_setting resp 0x21 record_mask c2
    c4 ← on_setting resp 0x15 record_dns1 c3
    c5 ← on_setting resp 0x16 record_dns2 c4
    on_setting resp 0x29 record_mtu c5

  -- Its result is not used.
  unfoldable pub issue_get_settings : Ctx → Cmd Ctx
  unfolding record_settings
  issue_get_settings ctx = do
    req ← lift (get_settings_request (array 64) ctx.txid)
    let ctx' : Ctx = record ctx { txid = next_txid ctx.txid }
    reply ← qrtr_txn (fd_arg ctx'.fd) 0 ctx'.wds_port req msg_get_settings 1024 2000
    on_some reply (pure ctx') λ resp. record_settings resp ctx'

  -- One of the two requests that go before: only the missing reply is an error.
  unfoldable pub precede : Option (List ℕ) → ℕ → Ctx → (Ctx → Cmd (ℕ × Ctx)) → Cmd (ℕ × Ctx)
  precede request msg_id ctx next = do
    req ← lift request
    let ctx' : Ctx = record ctx { txid = next_txid ctx.txid }
    reply ← qrtr_txn (fd_arg ctx'.fd) 0 ctx'.wds_port req msg_id 512 2000
    on_some reply (pure (2, ctx')) λ resp. do _ ← lift (qmi_result resp (length resp)); next ctx'

  -- What follows a successful reply.
  unfoldable pub bearer_up : List ℕ → Ctx → Cmd (ℕ × Ctx)
  unfolding issue_get_settings
  bearer_up resp ctx = do
    found ← lift (qmi_tlv_get_u32 resp (length resp) 0x01)
    ctx' ← on_some found (pure ctx) λ pdh. do
      state_record (codes "bearer_pdh") (show_x8 pdh)
      pure (record ctx { bearer_pkt_data_handle = pdh })
    state_record (codes "bearer_state") (codes "UP")
    ctx'' ← issue_get_settings ctx'
    pure (0, ctx'')

  -- The part behind the label `start_network`.
  unfoldable pub start_network : Ctx → Cmd (ℕ × Ctx)
  unfolding bearer_up
  start_network ctx = do
    req ← lift (start_network_request (array 256) ctx.txid ctx.apn ctx.simple_wds)
    let ctx' : Ctx = record ctx { txid = next_txid ctx.txid }
    reply ← qrtr_txn (fd_arg ctx'.fd) 0 ctx'.wds_port req msg_start_network 512 10000
    on_some reply (pure (2, ctx')) λ resp. do
      rc ← lift (qmi_result resp (length resp))
      if is_zero rc
          then bearer_up resp ctx'
          else do state_record (codes "bearer_state") (codes "FAIL_" ++ show_d rc); pure (3, ctx')

  -- From the second of them on.
  unfoldable pub set_family : Ctx → Cmd (ℕ × Ctx)
  unfolding precede start_network
  set_family ctx =
      precede (set_ip_family_request (array 256) ctx.txid) msg_4d_set_ip_family ctx start_network

  unfoldable pub stage_wds_start : StageFn
  unfolding set_family
  stage_wds_start ctx =
      if ctx.dry_run
      then pure (0, ctx)
      else if ctx.wds_port == 0
      then pure (1, ctx)
      else if ctx.simple_wds
      then start_network ctx
      else precede (set_mode_af_request (array 256) ctx.txid) msg_af_set_mode ctx set_family

  module _ (fds : List ℕ) where
    on_setting-Kept :
        (resp : List ℕ) (type : ℕ) (f : ℕ → Ctx → Cmd Ctx) (ctx : Ctx)
        → ((v : ℕ) → Brings fds (f v ctx) (Kept ctx fds))
        → Brings fds (on_setting resp type f ctx) (Kept ctx fds)
    unfolding on_setting
    on_setting-Kept resp type f ctx k =
        let (found, e) = qmi_tlv_get_u32_total resp type in
        then_lift _ _ found e
          (Brings-on_some _ _ _ (λ _. Brings-pure _ (refl, refl, refl)) λ v _. k v)

    record_settings-Kept :
        (resp : List ℕ) (ctx : Ctx) → Brings fds (record_settings resp ctx) (Kept ctx fds)
    unfolding record_settings
    record_settings-Kept resp ctx =
        then_kept ctx _ _
          (on_setting-Kept resp 0x1e record_ipv4 ctx
            λ v. then_quiet _ _ (state_record-Quiet _ _) λ _. Brings-pure _ (refl, refl, refl))
          λ c1 f1 a1.
            then_kept c1 _ _
              (on_setting-Kept resp 0x20 record_gw c1
                λ v. then_quiet _ _ (state_record-Quiet _ _) λ _. Brings-pure _ (refl, refl, refl))
              λ c2 f2 a2.
                then_kept c2 _ _
                  (on_setting-Kept resp 0x21 record_mask c2 λ v.
                    let (n, e, _) = prefix_of_total v in
                    then_lift _ _ n e (
                      then_quiet _ _ (state_record-Quiet _ _)
                        λ _. Brings-pure _ (refl, refl, refl)))
                  λ c3 f3 a3.
                    then_kept c3 _ _
                      (on_setting-Kept resp 0x15 record_dns1 c3
                        λ v. Brings-pure _ (refl, refl, refl))
                      λ c4 f4 a4.
                        then_kept c4 _ _
                          (on_setting-Kept resp 0x16 record_dns2 c4
                            λ v. Brings-pure _ (refl, refl, refl))
                          λ c5 f5 a5.
                            let f : c5.fd ≡ ctx.fd = f5 ∙ f4 ∙ f3 ∙ f2 ∙ f1 in
                            let a : c5.apn ≡ ctx.apn = a5 ∙ a4 ∙ a3 ∙ a2 ∙ a1 in
                            Kept-on c5 ctx _ f a (
                              on_setting-Kept resp 0x29 record_mtu c5 λ v.
                                then_quiet _ _ (state_record-Quiet _ _)
                                  λ _. Brings-pure _ (refl, refl, refl))

    issue_get_settings-Kept : (ctx : Ctx) → Brings fds (issue_get_settings ctx) (Kept ctx fds)
    unfolding issue_get_settings
    issue_get_settings-Kept ctx =
        then_lift _ _ _ (get_settings_request_lem (array 64) ctx.txid (length-array 64)) (
          then_quiet _ _ (qrtr_txn-Quiet _ 0 ctx.wds_port _ msg_get_settings 1024 2000) λ reply.
            Brings-on_some _ _ _ (λ _. Brings-pure _ (refl, refl, refl))
              λ resp _. record_settings-Kept resp (record ctx { txid = next_txid ctx.txid }))

    bearer_up-Closed :
        (resp : List ℕ) (ctx : Ctx) → Brings fds (bearer_up resp ctx) (Closed ctx fds)
    unfolding bearer_up
    bearer_up-Closed resp ctx =
        let (found, e) = qmi_tlv_get_u32_total resp 0x01 in
        then_lift _ _ found e (
          then_kept ctx _ _
            (Brings-on_some _ _ _ (λ _. Brings-pure _ (refl, refl, refl))
              λ pdh _.
                then_quiet _ _ (state_record-Quiet _ _) λ _. Brings-pure _ (refl, refl, refl))
            λ c f a. then_quiet _ _ (state_record-Quiet _ _) λ _.
              then_kept c _ _ (issue_get_settings-Kept c)
                λ c' f' a'. Brings-pure _ (refl, f' ∙ f, a' ∙ a, omega arith))

    start_network-Closed :
        (ctx : Ctx)
        → length ctx.apn ≤ apn_limit ctx.simple_wds
        → Brings fds (start_network ctx) (Closed ctx fds)
    unfolding start_network
    start_network-Closed ctx short =
        then_lift _ _ _
          (start_network_request_lem (array 256) ctx.txid ctx.apn ctx.simple_wds (length-array 256)
            short)
          (then_quiet _ _ (qrtr_txn-Quiet _ 0 ctx.wds_port _ msg_start_network 512 10000) λ reply.
            Brings-on_some _ _ _ (λ _. Brings-pure _ (refl, refl, refl, omega arith))
              λ resp _.
                let (rc, e) = qmi_result_total resp in
                then_lift _ _ rc e (
                  Brings-if _ _ _
                    (λ _. bearer_up-Closed resp (record ctx { txid = next_txid ctx.txid }))
                    λ _.
                      then_quiet _ _ (state_record-Quiet _ _)
                        λ _. Brings-pure _ (refl, refl, refl, omega arith)))

    precede-Closed :
        (request : Option (List ℕ)) (req : List ℕ) (msg_id : ℕ) (ctx : Ctx)
        (next : Ctx → Cmd (ℕ × Ctx))
        → request ≡ some req
        → Brings fds (next (record ctx { txid = next_txid ctx.txid })) (Closed ctx fds)
        → Brings fds (precede request msg_id ctx next) (Closed ctx fds)
    unfolding precede
    precede-Closed request req msg_id ctx next e k = then_lift _ _ req e (
        then_quiet _ _ (qrtr_txn-Quiet _ 0 ctx.wds_port req msg_id 512 2000) λ reply.
          Brings-on_some _ _ _ (λ _. Brings-pure _ (refl, refl, refl, omega arith))
            λ resp _. let (rc, e') = qmi_result_total resp in then_lift _ _ rc e' k)

    -- With an APN that the chosen form of the request has room for, whatever the kernel and the
    -- modem answer, the stage returns without a fault; the descriptors that are open then are those
    -- that were open before, and the context keeps its bearer socket and its APN; the exit code is at most 3.
    pub stage_wds_start-Closed :
        (ctx : Ctx)
        → length ctx.apn ≤ apn_limit ctx.simple_wds
        → Brings fds (stage_wds_start ctx) (Closed ctx fds)
    unfolding stage_wds_start set_family
    stage_wds_start-Closed ctx short =
        let c1 : Ctx = record ctx { txid = next_txid ctx.txid } in
        let c2 : Ctx = record ctx { txid = next_txid (next_txid ctx.txid) } in
        Brings-if _ _ _ (λ _. Brings-pure _ (refl, refl, refl, omega arith))
          λ _.
            Brings-if _ _ _ (λ _. Brings-pure _ (refl, refl, refl, omega arith))
              λ _.
                Brings-if _ _ _ (λ _. start_network-Closed ctx short)
                  λ _.
                    precede-Closed _ _ msg_af_set_mode ctx set_family
                      (set_mode_af_request_lem (array 256) ctx.txid (length-array 256))
                      (precede-Closed _ _ msg_4d_set_ip_family c1 start_network
                        (set_ip_family_request_lem (array 256) c1.txid (length-array 256))
                        (start_network-Closed c2 short))
