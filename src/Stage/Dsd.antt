-- ===== src/Stage/Dsd.antt =====
-- vendor-init/stage_dsd.c: a lookup of the DSD service.
use postmarketos_x00td_cellu.Qrtr.{qrtr_svc_dsd}
use postmarketos_x00td_cellu.Stage.Kit.{
  arith, ℕ, refl, List, ◌==◌, codes, show_u, Ctx, StageFn, Kernel, pure, emit, close, ◌>>=◌, ◌>>◌,
  if◌then◌else◌, on_some, Brings, Brings-pure, Brings-if, then_quiet, then_open, then_close_last,
  qrtr_open, qrtr_lookup, qrtr_lookup-Quiet, state_record, state_record-Quiet, Closed, Quiet-if,
}

module _ ⦃K : Kernel⦄ where
  unfoldable pub stage_dsd : StageFn
  stage_dsd ctx = if ctx.dry_run then pure (0, ctx) else do
    opened ← qrtr_open
    on_some opened (pure (0, ctx)) λ fd. do
      port ← qrtr_lookup fd qrtr_svc_dsd
      (if port == 0
          then state_record (codes "dsd_port") (codes "0 (not found)")
          else state_record (codes "dsd_port") (show_u port))
      emit (close fd)
      pure (0, record ctx { dsd_port = port })

  -- Whatever the kernel and the modem answer, the stage returns without a fault; the descriptors
  -- that are open then are those that were open before, and the context keeps its bearer socket and
  -- its APN; the exit code is at most 3.
  pub stage_dsd-Closed : (ctx : Ctx) (fds : List ℕ) → Brings fds (stage_dsd ctx) (Closed ctx fds)
  unfolding stage_dsd qrtr_open
  stage_dsd-Closed ctx fds =
      Brings-if _ _ _ (λ _. Brings-pure _ (refl, refl, refl, omega arith))
        λ _. then_open _ _ (Brings-pure _ (refl, refl, refl, omega arith)) λ fd.
          then_quiet _ _ (qrtr_lookup-Quiet fd qrtr_svc_dsd) λ port.
            then_quiet _ _ (Quiet-if _ _ _ (state_record-Quiet _ _) (state_record-Quiet _ _))
              λ _. then_close_last _ _ (Brings-pure _ (refl, refl, refl, omega arith))
