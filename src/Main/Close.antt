-- ===== src/Main/Close.antt =====
-- The descriptors of a whole run of vendor-init: stage after stage, and the close at the end.
use postmarketos_x00td_cellu.Common.{
  ◌⊎◌, inl, inr, arith, ℕ, suc, ◌≤◌, ◌≡◌, refl, sym, ap, ◌∙◌, subst, Bool, true, false, Option,
  none, some, List, [], ◌∷◌, length, arith,
}
use mathlib.Core.Bool.{true≢false}
use postmarketos_x00td_cellu.Context.{Ctx, StageFn}
use postmarketos_x00td_cellu.Host.{
  close, pause, History, Kernel, World, Run, ok, fault, stuck, Cmd, opened, ◌>>◌,
}
unfoldable use postmarketos_x00td_cellu.Host.{pure, emit, on_some}
use postmarketos_x00td_cellu.Host.Rules.{
  Returns, Brings, Settled, Settled-if, Settled-ask, Settled-look, Quiet, Quiet-pure, Quiet-look,
  Quiet-if, Quiet-bind, Brings-pure, Brings-if, Brings-bind, then_quiet, then_close_last,
}
use postmarketos_x00td_cellu.Request.Bytes.{apn_limit}
use postmarketos_x00td_cellu.Stage.BindMux.{stage_bind_mux, Held, stage_bind_mux-Held}
use postmarketos_x00td_cellu.Stage.DmsOnline.{stage_dms_online-Closed}
use postmarketos_x00td_cellu.Stage.DpmOpen.{stage_dpm_open-Closed}
use postmarketos_x00td_cellu.Stage.Dsd.{stage_dsd-Closed}
use postmarketos_x00td_cellu.Stage.NasRat.{Clock, stage_nas_rat-Closed}
use postmarketos_x00td_cellu.Stage.Outcome.{Closed}
use postmarketos_x00td_cellu.Stage.PostTune.{stage_post_tune-Closed}
use postmarketos_x00td_cellu.Stage.WdaSet.{stage_wda_set-Closed}
use postmarketos_x00td_cellu.Stage.WdsStart.{stage_wds_start-Closed}
use postmarketos_x00td_cellu.State.Files.{
  state_record-Quiet, state_set_stage-Quiet, state_set_result-Quiet,
}
use postmarketos_x00td_cellu.Main.{stages, after_stage, run_stages, hold, finish, run_main}

-- pause() returns when a handler has run, and each handler of the program sets g_stop.
pub record Signals (K : Kernel) : Type 0 where
  pub pause_stopped : (h : History) → K.stopped (pause ∷ h) ≡ true

-- An APN that every request has room for.
abbrev pub Short : Ctx → Type 0
Short ctx = length ctx.apn ≤ apn_limit false

short_lem : (simple_wds : Bool) (n : ℕ) → n ≤ apn_limit false → n ≤ apn_limit simple_wds
short_lem true n h = omega arith
short_lem false n h = h

-- A stage's exit code, or that of an interrupted run.
abbrev pub IsExitCode : ℕ → Type 0
IsExitCode rc = (rc ≤ 3) ⊎ (rc ≡ 130)

-- Before bind_mux there is no bearer socket.
abbrev Early : Ctx → Type 0
Early ctx = (ctx.fd ≡ none) × Short ctx

module _ ⦃K : Kernel⦄ where
  -- What is open besides `fds` is the bearer socket, the context is in the phase `P`, and the exit
  -- code is that of a stage.
  abbrev Phase : (Ctx → Type 0) → List ℕ → ℕ × Ctx → List ℕ → Type 0
  Phase P fds (rc, ctx) gs = (gs ≡ opened ctx.fd fds) × P ctx × (rc ≤ 3)

  abbrev Ends : List ℕ → ℕ × Ctx → List ℕ → Type 0
  Ends fds (rc, ctx) gs = (gs ≡ opened ctx.fd fds) × IsExitCode rc

  weaken_run :
      {A : Type 0} (P Q : A → List ℕ → Type 0) (r : Run A)
      → ((a : A) (gs : List ℕ) → P a gs → Q a gs)
      → Returns r P
      → Returns r Q
  weaken_run P Q (ok a w) k h = k a _ h
  weaken_run P Q fault k h = h
  weaken_run P Q stuck k h = h

  weaken :
      {A : Type 0} {fds : List ℕ} (m : Cmd A) (P Q : A → List ℕ → Type 0)
      → ((a : A) (gs : List ℕ) → P a gs → Q a gs)
      → Brings fds m P
      → Brings fds m Q
  weaken m P Q k b = record { at = λ w e. weaken_run P Q (m w) k (b.at w e) }

  module _ (fds : List ℕ) where
    run_stages_nil : (ctx : Ctx) → Brings (opened ctx.fd fds) (run_stages [] ctx) (Ends fds)
    unfolding run_stages
    run_stages_nil ctx = Brings-pure (0, ctx) (refl, inl (omega arith))

    -- One stage, and the stages after it.
    run_stages_cons :
        (P : Ctx → Type 0) (name : List ℕ) (fn : StageFn) (rest : List (List ℕ × StageFn))
        (ctx : Ctx)
        → Brings (opened ctx.fd fds) (fn ctx) (Phase P fds)
        → ((ctx' : Ctx) → P ctx' → Brings (opened ctx'.fd fds) (run_stages rest ctx') (Ends fds))
        → Brings (opened ctx.fd fds) (run_stages ((name, fn) ∷ rest) ctx) (Ends fds)
    unfolding run_stages
    run_stages_cons P name fn rest ctx b k = then_quiet _ _ (Quiet-look K.stopped) λ _.
        Brings-if _ _ _
          (λ _.
            then_quiet _ _ (state_set_result-Quiet _) λ _. Brings-pure (130, ctx) (refl, inr refl))
          λ _. then_quiet _ _ (state_set_stage-Quiet name) λ _.
            Brings-bind (fn ctx) (after_stage name (run_stages rest)) (Phase P fds) b
              λ (rc, c) gs h.
                subst (λ hs. Brings hs (after_stage name (run_stages rest) (rc, c)) (Ends fds))
                  (sym h.0)
                  (Brings-if _ _ _ (λ _. k c h.1)
                    λ _.
                      then_quiet _ _ (state_set_result-Quiet _)
                        λ _. Brings-pure (rc, c) (refl, inl h.2))

    -- A stage that closes what it opened stays in the phase of the context it was given.
    Early-stage :
        (fn : StageFn)
        → ((ctx : Ctx) (gs : List ℕ) → Short ctx → Brings gs (fn ctx) (Closed ctx gs))
        → (ctx : Ctx) → Early ctx
        → Brings (opened ctx.fd fds) (fn ctx) (Phase Early fds)
    Early-stage fn b ctx (e, short) =
        weaken (fn ctx) (Closed ctx (opened ctx.fd fds)) (Phase Early fds)
          (λ (rc, c) gs (g, f, a, r). (
            g ∙ ap (λ d. opened d fds) (sym f),
            (f ∙ e, subst (λ n. length n ≤ apn_limit false) (sym a) short),
            r,
          ))
          (b ctx (opened ctx.fd fds) short)

    Late-stage :
        (fn : StageFn)
        → ((ctx : Ctx) (gs : List ℕ) → Short ctx → Brings gs (fn ctx) (Closed ctx gs))
        → (ctx : Ctx) → Short ctx
        → Brings (opened ctx.fd fds) (fn ctx) (Phase Short fds)
    Late-stage fn b ctx short =
        weaken (fn ctx) (Closed ctx (opened ctx.fd fds)) (Phase Short fds)
          (λ (rc, c) gs (g, f, a, r). (
            g ∙ ap (λ d. opened d fds) (sym f),
            subst (λ n. length n ≤ apn_limit false) (sym a) short,
            r,
          ))
          (b ctx (opened ctx.fd fds) short)

    bind_stage :
        (ctx : Ctx) → Early ctx → Brings (opened ctx.fd fds) (stage_bind_mux ctx) (Phase Short fds)
    bind_stage ctx (e, short) =
        subst (λ d. Brings (opened d fds) (stage_bind_mux ctx) (Phase Short fds)) (sym e)
          (weaken (stage_bind_mux ctx) (Held ctx fds) (Phase Short fds)
            (λ (rc, c) gs (g, a, r). (g, subst (λ n. length n ≤ apn_limit false) (sym a) short, r))
            (stage_bind_mux-Held ctx fds e))

    run_stages-Ends :
        (C : Clock K) (ctx : Ctx)
        → Early ctx
        → Brings (opened ctx.fd fds) (run_stages stages ctx) (Ends fds)
    run_stages-Ends C ctx p =
        run_stages_cons Early _ _ _ ctx
          (Early-stage _ (λ c gs _. stage_dms_online-Closed c gs) ctx p)
          λ c1 p1.
            run_stages_cons Early _ _ _ c1
              (Early-stage _ (λ c gs _. stage_nas_rat-Closed C c gs) c1 p1)
              λ c2 p2.
                run_stages_cons Early _ _ _ c2
                  (Early-stage _ (λ c gs _. stage_dpm_open-Closed c gs) c2 p2)
                  λ c3 p3.
                    run_stages_cons Early _ _ _ c3
                      (Early-stage _ (λ c gs _. stage_wda_set-Closed c gs) c3 p3)
                      λ c4 p4.
                        run_stages_cons Early _ _ _ c4
                          (Early-stage _ (λ c gs _. stage_dsd-Closed c gs) c4 p4)
                          λ c5 p5. run_stages_cons Short _ _ _ c5 (bind_stage c5 p5) λ c6 p6.
                            run_stages_cons Short _ _ _ c6
                              (Late-stage _
                                (λ c gs s.
                                  stage_wds_start-Closed gs c
                                    (short_lem c.simple_wds (length c.apn) s))
                                c6 p6)
                              λ c7 p7.
                                run_stages_cons Short _ _ _ c7
                                  (Late-stage _ (λ c gs _. stage_post_tune-Closed c gs) c7 p7)
                                  λ c8 p8. run_stages_nil c8

  hold_stopped : (left : ℕ) (w : World) → K.stopped w.history ≡ true → Settled w (hold (suc left) w)
  unfolding hold
  hold_stopped left w e = Settled-look K.stopped _ w (
      Settled-if (K.stopped w.history) (pure tt) _ w (λ _. (Quiet-pure tt).at w)
        λ not_stopped. absurd (true≢false (sym e ∙ not_stopped)))

  hold-Quiet : (S : Signals K) → Quiet (hold 2)
  unfolding hold emit
  hold-Quiet S = record {
    at = λ w. Settled-look K.stopped _ w (
        Settled-if (K.stopped w.history) (pure tt) _ w (λ _. (Quiet-pure tt).at w)
          λ _.
            Settled-ask pause (λ _. tt) (λ _. hold 1) w tt
              (hold_stopped 0 (record w { history = pause ∷ w.history })
                (S.pause_stopped w.history)));
  }

  finish-Brings :
      (S : Signals K) (rc : ℕ) (ctx : Ctx) (fds : List ℕ)
      → IsExitCode rc
      → Brings (opened ctx.fd fds) (finish (rc, ctx)) (λ code gs. (gs ≡ fds) × IsExitCode code)
  unfolding finish on_some
  finish-Brings S rc ctx fds x =
      then_quiet _ _
        (Quiet-if _ _ _ (Quiet-bind _ _ (state_set_result-Quiet _) λ _. hold-Quiet S)
          (Quiet-pure tt))
        λ _. close_bearer ctx.fd
    where
      close_bearer :
          (o : Option ℕ)
          → Brings
              (opened o fds)
              (on_some o (pure tt) (λ fd. emit (close fd)) >> pure rc)
              (λ code gs. (gs ≡ fds) × IsExitCode code)
      close_bearer none = then_quiet _ _ (Quiet-pure tt) λ _. Brings-pure rc (refl, x)
      close_bearer (some fd) = then_close_last fd _ (Brings-pure rc (refl, x))

  -- If the clock goes on, no nap is cut short and pause returns only for a signal, then with an APN of at
  -- most 226 bytes main returns, whatever the kernel and the modem answer: no access is outside an array. The
  -- descriptors that are open then are those that were open at the start, and the exit code is at
  -- most 3, or 130.
  pub run_main-Brings :
      (C : Clock K) (S : Signals K) (ctx : Ctx) (fds : List ℕ)
      → length ctx.apn ≤ 226
      → Brings fds (run_main ctx) (λ code gs. (gs ≡ fds) × IsExitCode code)
  unfolding run_main
  run_main-Brings C S ctx fds short = then_quiet _ _ (state_set_result-Quiet _) λ _.
      then_quiet _ _ (state_record-Quiet _ _) λ _. then_quiet _ _ (state_record-Quiet _ _) λ _.
        then_quiet _ _ (state_record-Quiet _ _) λ _.
          Brings-bind (run_stages stages (record ctx { fd = none })) finish (Ends fds)
            (run_stages-Ends fds C (record ctx { fd = none }) (refl, short))
            λ (rc, c) gs e.
              subst (λ hs. Brings hs (finish (rc, c)) (λ code is. (is ≡ fds) × IsExitCode code))
                (sym e.0) (finish-Brings S rc c fds e.1)
