-- ===== src/State/Files.antt =====
-- The functions of vendor-init/state.c, which open and close no socket.
use postmarketos_x00td_cellu.Common.{ℕ, refl, List, []}
use postmarketos_x00td_cellu.Host.{mkdir, fopen, fputs, Kernel, pure, ask, emit, ◌>>◌}
use postmarketos_x00td_cellu.Host.Rules.{
  Quiet, Quiet-pure, Quiet-ask, Quiet-emit, Quiet-if, Quiet-bind,
}
use postmarketos_x00td_cellu.State.{
  state_dir, fit, set_ensured, ensure_dir, put_file, write_file, state_set_stage, state_set_result,
  state_record,
}

module _ ⦃K : Kernel⦄ where
  set_ensured-Quiet : Quiet set_ensured
  unfolding set_ensured
  set_ensured-Quiet = record { at = λ w. (refl, [], refl, tt) }

  ensure_dir-Quiet : Quiet ensure_dir
  unfolding ensure_dir
  ensure_dir-Quiet = record {
    at = λ w.
        (Quiet-if w.dir_ensured (pure tt) (emit (mkdir state_dir) >> set_ensured) (Quiet-pure tt) (
            Quiet-bind (emit (mkdir state_dir)) _ (Quiet-emit (mkdir state_dir) tt)
              (λ _. set_ensured-Quiet))).at
          w;
  }

  pub put_file-Quiet : (path text : List ℕ) → Quiet (put_file path text)
  unfolding put_file
  put_file-Quiet path text =
      Quiet-bind (ask (fopen path) K.fopen) _ (Quiet-ask (fopen path) _ tt)
        (λ o. Quiet-if o _ _ (Quiet-emit (fputs path text) tt) (Quiet-pure tt))

  write_file-Quiet : (name value : List ℕ) → Quiet (write_file name value)
  unfolding write_file
  write_file-Quiet name value = Quiet-bind ensure_dir _ ensure_dir-Quiet (λ _. put_file-Quiet _ _)

  pub state_record-Quiet : (key text : List ℕ) → Quiet (state_record key text)
  unfolding state_record
  state_record-Quiet key text = write_file-Quiet key (fit text)

  pub state_set_stage-Quiet : (stage : List ℕ) → Quiet (state_set_stage stage)
  unfolding state_set_stage
  state_set_stage-Quiet stage = write_file-Quiet _ stage

  pub state_set_result-Quiet : (result : List ℕ) → Quiet (state_set_result result)
  unfolding state_set_result
  state_set_result-Quiet result = write_file-Quiet _ result
