-- ===== src/Stage/BindMux.antt =====
-- vendor-init/stage_bind_mux.c: the bearer socket, and one channel after the other bound on it.
use postmarketos_x00td_cellu.Host.{opened}
use postmarketos_x00td_cellu.Qrtr.{qrtr_svc_wds}
use postmarketos_x00td_cellu.Request.Messages.{msg_bind_mux, bind_mux_request}
use postmarketos_x00td_cellu.Request.Bytes.{bind_mux_request_lem}
use postmarketos_x00td_cellu.Stage.Kit.{
  arith, ◌≤◌, ℕ, zero, suc, ◌+◌, ◌≡◌, refl, none, some, List, length, ◌==◌, ℤ, pos, negsuc, is_zero,
  codes, show_u, Ctx, StageFn, fd_arg, next_txid, Kernel, Cmd, pure, lift, emit, ◌>>=◌, ◌>>◌,
  if◌then◌else◌, on_some, close, Brings, Brings-pure, Brings-if, Brings-on_some, then_quiet,
  then_lift, then_open, then_close_last, qmi_result_total, qmi_result, qrtr_open, qrtr_lookup,
  qrtr_txn, qrtr_lookup-Quiet, qrtr_txn-Quiet, array, length-array, state_record,
  state_record-Quiet,
}

-- How often the loop `for (m = 1; m <= n; m++)` runs.
abbrev pub rounds : ℤ → ℕ
rounds (pos n) = n
rounds (negsuc n) = 0

module _ ⦃K : Kernel⦄ where
  -- The channels from `m` on, `n_ok` having been bound.
  unfoldable pub bind_loop : ℕ → ℕ → ℕ → Ctx → Cmd (ℕ × Ctx)
  bind_loop zero m n_ok ctx = do state_record (codes "mux_bound") (show_u n_ok); pure (0, ctx)
  bind_loop (suc left) m n_ok ctx = do
    req ← lift (bind_mux_request (array 64) ctx.txid m)
    let ctx' : Ctx = record ctx { txid = next_txid ctx.txid }
    reply ← qrtr_txn (fd_arg ctx'.fd) 0 ctx'.wds_port req msg_bind_mux 256 2000
    on_some reply (pure (2, ctx')) λ resp. do
      rc ← lift (qmi_result resp (length resp))
      if is_zero rc then bind_loop left (m + 1) (n_ok + 1) ctx' else pure (3, ctx')

  unfoldable pub stage_bind_mux : StageFn
  unfolding bind_loop
  stage_bind_mux ctx = if ctx.dry_run then pure (0, ctx) else do
    made ← qrtr_open
    on_some made (pure (1, ctx)) λ fd. do
      port ← qrtr_lookup fd qrtr_svc_wds
      let ctx' : Ctx = record ctx { wds_port = port }
      if port == 0 then emit (close fd) >> pure (1, ctx') else do
        state_record (codes "wds_port") (show_u port)
        bind_loop (rounds ctx.num_muxes) 1 0 (record ctx' { fd = some fd; txid = 1 })

  -- What is open besides `fds` is the bearer socket of the context, and the exit code is 3 at most.
  abbrev pub Held : Ctx → List ℕ → ℕ × Ctx → List ℕ → Type 0
  Held ctx fds (rc, ctx') gs = (gs ≡ opened ctx'.fd fds) × (ctx'.apn ≡ ctx.apn) × (rc ≤ 3)

  bind_loop-Held :
      (left m n_ok : ℕ) (ctx : Ctx) (fds : List ℕ)
      → Brings (opened ctx.fd fds) (bind_loop left m n_ok ctx) (Held ctx fds)
  unfolding bind_loop
  bind_loop-Held zero m n_ok ctx fds =
      then_quiet _ _ (state_record-Quiet _ _) λ _. Brings-pure _ (refl, refl, omega arith)
  bind_loop-Held (suc left) m n_ok ctx fds =
      then_lift _ _ _ (bind_mux_request_lem (array 64) ctx.txid m (length-array 64)) (
        then_quiet _ _ (qrtr_txn-Quiet _ 0 _ _ msg_bind_mux 256 2000) λ reply.
          Brings-on_some _ _ _ (λ _. Brings-pure _ (refl, refl, omega arith))
            λ resp _.
              let (rc, e) = qmi_result_total resp in
              then_lift _ _ rc e (
                Brings-if _ _ _
                  (λ _.
                    bind_loop-Held left (m + 1) (n_ok + 1)
                      (record ctx { txid = next_txid ctx.txid }) fds)
                  λ _. Brings-pure _ (refl, refl, omega arith)))

  -- Started without a bearer socket, the stage returns without a fault, whatever the kernel and the
  -- modem answer. It leaves open what was open before and, if the context names a bearer socket
  -- then, that one; the APN is kept, and the exit code is at most 3.
  pub stage_bind_mux-Held :
      (ctx : Ctx) (fds : List ℕ) → ctx.fd ≡ none → Brings fds (stage_bind_mux ctx) (Held ctx fds)
  unfolding stage_bind_mux qrtr_open
  stage_bind_mux-Held ctx fds e =
      let same : fds ≡ opened ctx.fd fds = rw e in
      Brings-if _ _ _ (λ _. Brings-pure _ (same, refl, omega arith))
        λ _. then_open _ _ (Brings-pure _ (same, refl, omega arith)) λ fd.
          then_quiet _ _ (qrtr_lookup-Quiet fd qrtr_svc_wds) λ port.
            Brings-if _ _ _ (λ _. then_close_last _ _ (Brings-pure _ (same, refl, omega arith)))
              λ _. then_quiet _ _ (state_record-Quiet _ _) λ _.
                bind_loop-Held (rounds ctx.num_muxes) 1 0
                  (record ctx { fd = some fd; txid = 1; wds_port = port }) fds
