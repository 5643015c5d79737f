-- ===== src/Main/DryRun.antt =====
-- vendor-init/vendor-init.c: a run with --dry-run.
use postmarketos_x00td_cellu.Common.{
  ℕ, suc, ◌≡◌, refl, sym, ap, ◌∙◌, subst, true, false, none, List, [], ◌∷◌, ◌++◌, take, ◌==◌, ◌⊎◌,
  inl, inr, Bool-cases,
}
use postmarketos_x00td_cellu.Context.{Ctx, StageFn}
use postmarketos_x00td_cellu.Host.{
  close, Event, mkdir, fopen, fputs, pause, Kernel, World, ok, ask, ◌>>◌,
}
unfoldable use postmarketos_x00td_cellu.Host.{pure, look, emit, ◌>>=◌, if◌then◌else◌, on_some}
use postmarketos_x00td_cellu.Host.Traces.{
  Traces, Traced, Traces-pure, Traces-if, Traces-bind, Traces-ask, Traces-emit, Traces-look,
}
use postmarketos_x00td_cellu.Stage.BindMux.{stage_bind_mux}
use postmarketos_x00td_cellu.Stage.DmsOnline.{stage_dms_online}
use postmarketos_x00td_cellu.Stage.DpmOpen.{stage_dpm_open}
use postmarketos_x00td_cellu.Stage.Dsd.{stage_dsd}
use postmarketos_x00td_cellu.Stage.NasRat.{stage_nas_rat}
use postmarketos_x00td_cellu.Stage.PostTune.{stage_post_tune}
use postmarketos_x00td_cellu.Stage.WdaSet.{stage_wda_set}
use postmarketos_x00td_cellu.Stage.WdsStart.{stage_wds_start}
use postmarketos_x00td_cellu.State.{
  state_dir, fit, set_ensured, ensure_dir, put_file, write_file, state_set_stage, state_set_result,
  state_record,
}
use postmarketos_x00td_cellu.Main.{stages, after_stage, run_stages, hold, finish, run_main}
use postmarketos_x00td_cellu.Main.Close.{Signals}

-- A path in the directory of the state files.
abbrev pub IsUnder : List ℕ → Type 0
unfolding state_dir
IsUnder path = (name : List ℕ) × (path ≡ state_dir ++ b'/' ∷ name)

fit-IsUnder : (name : List ℕ) → IsUnder (fit (state_dir ++ b'/' ∷ name))
unfolding IsUnder fit state_dir
fit-IsUnder name = (take 238 name, refl)

-- Writing a file of the directory, creating it, or waiting for a signal.
abbrev pub IsLocal : Event → Type 0
IsLocal (mkdir path) = path ≡ state_dir
IsLocal (fopen path) = IsUnder path
IsLocal (fputs path text) = IsUnder path
IsLocal pause = Unit
IsLocal _ = ⊥

abbrev Anything : {A : Type 0} → A → Type 0
Anything _ = Unit

module _ ⦃K : Kernel⦄ where
  set_ensured-Local : Traces IsLocal set_ensured Anything
  unfolding set_ensured
  set_ensured-Local = record { at = λ w. ([], refl, tt, tt) }

  ensure_dir-Local : Traces IsLocal ensure_dir Anything
  unfolding ensure_dir
  ensure_dir-Local = record {
    at = λ w.
        (Traces-if w.dir_ensured (pure tt) (emit (mkdir state_dir) >> set_ensured)
            (Traces-pure tt tt)
            (Traces-bind (emit (mkdir state_dir)) _ (Traces-emit (mkdir state_dir) refl)
              (λ _ _. set_ensured-Local))).at
          w;
  }

  put_file-Local :
      (path text : List ℕ) → IsUnder path → Traces IsLocal (put_file path text) Anything
  unfolding put_file
  put_file-Local path text under =
      Traces-bind (ask (fopen path) K.fopen) _ (Traces-ask (fopen path) _ under)
        (λ o _. Traces-if o _ _ (Traces-emit (fputs path text) under) (Traces-pure tt tt))

  write_file-Local : (name value : List ℕ) → Traces IsLocal (write_file name value) Anything
  unfolding write_file
  write_file-Local name value =
      Traces-bind ensure_dir _ ensure_dir-Local (λ _ _. put_file-Local _ _ (fit-IsUnder name))

  state_record-Local : (key text : List ℕ) → Traces IsLocal (state_record key text) Anything
  unfolding state_record
  state_record-Local key text = write_file-Local key (fit text)

  state_set_stage-Local : (stage : List ℕ) → Traces IsLocal (state_set_stage stage) Anything
  unfolding state_set_stage
  state_set_stage-Local stage = write_file-Local _ stage

  state_set_result-Local : (result : List ℕ) → Traces IsLocal (state_set_result result) Anything
  unfolding state_set_result
  state_set_result-Local result = write_file-Local _ result

  -- A stage that a dry run passes over.
  abbrev IsIdle : StageFn → Type 0
  IsIdle fn = (ctx : Ctx) → ctx.dry_run ≡ true → fn ctx ≡ pure (0, ctx)

  stage_dms_online-IsIdle : IsIdle stage_dms_online
  unfolding stage_dms_online if◌then◌else◌
  stage_dms_online-IsIdle ctx e = rw e

  stage_nas_rat-IsIdle : IsIdle stage_nas_rat
  unfolding stage_nas_rat if◌then◌else◌
  stage_nas_rat-IsIdle ctx e = rw e

  stage_dpm_open-IsIdle : IsIdle stage_dpm_open
  unfolding stage_dpm_open if◌then◌else◌
  stage_dpm_open-IsIdle ctx e = rw e

  stage_wda_set-IsIdle : IsIdle stage_wda_set
  unfolding stage_wda_set if◌then◌else◌
  stage_wda_set-IsIdle ctx e = rw e

  stage_dsd-IsIdle : IsIdle stage_dsd
  unfolding stage_dsd if◌then◌else◌
  stage_dsd-IsIdle ctx e = rw e

  stage_bind_mux-IsIdle : IsIdle stage_bind_mux
  unfolding stage_bind_mux if◌then◌else◌
  stage_bind_mux-IsIdle ctx e = rw e

  stage_wds_start-IsIdle : IsIdle stage_wds_start
  unfolding stage_wds_start if◌then◌else◌
  stage_wds_start-IsIdle ctx e = rw e

  stage_post_tune-IsIdle : IsIdle stage_post_tune
  unfolding stage_post_tune if◌then◌else◌
  stage_post_tune-IsIdle ctx e = rw e

  -- The exit code of a dry run, and its context.
  abbrev Ran : Ctx → ℕ × Ctx → Type 0
  Ran ctx (rc, c) = ((rc ≡ 0) ⊎ (rc ≡ 130)) × (c ≡ ctx)

  run_stages_idle :
      (name : List ℕ) (fn : StageFn) (rest : List (List ℕ × StageFn)) (ctx : Ctx)
      → IsIdle fn
      → ctx.dry_run ≡ true
      → Traces IsLocal (run_stages rest ctx) (Ran ctx)
      → Traces IsLocal (run_stages ((name, fn) ∷ rest) ctx) (Ran ctx)
  unfolding run_stages
  run_stages_idle name fn rest ctx idle e p = Traces-look K.stopped _ λ b.
      Traces-if b _ _
        (Traces-bind _ _ (state_set_result-Local _) λ _ _. Traces-pure (130, ctx) (inr refl, refl))
        (Traces-bind _ _ (state_set_stage-Local name) λ _ _.
          Traces-bind (fn ctx) (after_stage name (run_stages rest)) went λ left r. onward left r)
    where
      went : Traces IsLocal (fn ctx) (λ left. left ≡ (0, ctx))
      went =
          subst (λ m. Traces IsLocal m (λ left. left ≡ (0, ctx))) (sym (idle ctx e))
            (Traces-pure (0, ctx) refl)

      onward :
          (left : ℕ × Ctx)
          → left ≡ (0, ctx)
          → Traces IsLocal (after_stage name (run_stages rest) left) (Ran ctx)
      onward left r =
          subst (λ l. Traces IsLocal (after_stage name (run_stages rest) l) (Ran ctx)) (sym r)
            (Traces-if true (run_stages rest ctx) _ p (
              Traces-bind _ _ (state_set_result-Local _)
                λ _ _. Traces-pure (0, ctx) (inl refl, refl)))

  run_stages_none : (ctx : Ctx) → Traces IsLocal (run_stages [] ctx) (Ran ctx)
  unfolding run_stages
  run_stages_none ctx = Traces-pure (0, ctx) (inl refl, refl)

  run_stages-Local :
      (ctx : Ctx) → ctx.dry_run ≡ true → Traces IsLocal (run_stages stages ctx) (Ran ctx)
  run_stages-Local ctx e = run_stages_idle _ _ _ ctx stage_dms_online-IsIdle e (
      run_stages_idle _ _ _ ctx stage_nas_rat-IsIdle e (
        run_stages_idle _ _ _ ctx stage_dpm_open-IsIdle e (
          run_stages_idle _ _ _ ctx stage_wda_set-IsIdle e (
            run_stages_idle _ _ _ ctx stage_dsd-IsIdle e (
              run_stages_idle _ _ _ ctx stage_bind_mux-IsIdle e (
                run_stages_idle _ _ _ ctx stage_wds_start-IsIdle e
                  (run_stages_idle _ _ _ ctx stage_post_tune-IsIdle e (run_stages_none ctx))))))))

  hold_stopped : (left : ℕ) (w : World) → K.stopped w.history ≡ true → hold (suc left) w ≡ ok tt w
  unfolding hold look ◌>>=◌
  hold_stopped left w e = rw e

  hold_paused :
      (w : World)
      → K.stopped w.history ≡ false
      → hold 2 w ≡ hold 1 (record w { history = pause ∷ w.history })
  unfolding hold look ◌>>=◌ emit
  hold_paused w e = rw e

  hold-Local : (S : Signals K) → Traces IsLocal (hold 2) Anything
  hold-Local S = record {
    at = λ w. elim (Bool-cases (K.stopped w.history)) [
      | inl stopped ↦
          subst (Traced IsLocal Anything w) (sym (hold_stopped 1 w stopped)) ([], refl, tt, tt)
      | inr running ↦
          let v : World = record w { history = pause ∷ w.history } in
          subst (Traced IsLocal Anything w)
            (sym (hold_paused w running ∙ hold_stopped 0 v (S.pause_stopped w.history)))
            (pause ∷ [], refl, (tt, tt), tt)
    ];
  }

  finish-Local :
      (S : Signals K) (rc : ℕ) (ctx : Ctx)
      → ctx.fd ≡ none
      → (rc ≡ 0) ⊎ (rc ≡ 130)
      → Traces IsLocal (finish (rc, ctx)) (λ code. (code ≡ 0) ⊎ (code ≡ 130))
  unfolding finish on_some
  finish-Local S rc ctx e r =
      Traces-bind _ _
        (Traces-if (rc == 0) _ _ (Traces-bind _ _ (state_set_result-Local _) λ _ _. hold-Local S)
          (Traces-pure tt tt))
        λ _ _.
          Traces-bind (on_some ctx.fd (pure tt) (λ fd. emit (close fd))) _ no_close
            λ _ _. Traces-pure rc r
    where
      no_close : Traces IsLocal (on_some ctx.fd (pure tt) (λ fd. emit (close fd))) Anything
      no_close =
          subst (λ o. Traces IsLocal (on_some o (pure tt) (λ fd. emit (close fd))) Anything) (sym e)
            (Traces-pure tt tt)

  -- If pause returns only for a signal, then with --dry-run main returns 0 or 130, and each of its
  -- calls creates the directory /run/vendor-init, opens or writes a file under it, or waits for a signal:
  -- no socket is opened and no command is run.
  pub run_main-Local :
      (S : Signals K) (ctx : Ctx)
      → ctx.dry_run ≡ true
      → Traces IsLocal (run_main ctx) (λ code. (code ≡ 0) ⊎ (code ≡ 130))
  unfolding run_main
  run_main-Local S ctx e = Traces-bind _ _ (state_set_result-Local _) λ _ _.
      Traces-bind _ _ (state_record-Local _ _) λ _ _.
        Traces-bind _ _ (state_record-Local _ _) λ _ _.
          Traces-bind _ _ (state_record-Local _ _) λ _ _.
            Traces-bind (run_stages stages (record ctx { fd = none })) finish
              (run_stages-Local (record ctx { fd = none }) e)
              λ (rc, c) h. finish-Local S rc c (ap (λ d. d.fd) h.1) h.0
