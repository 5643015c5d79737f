-- ===== src/State.antt =====
-- vendor-init/state.c: one file for each key under /run/vendor-init.
pub mod Files
use postmarketos_x00td_cellu.Common.{ℕ, Bool, true, List, [], ◌∷◌, ◌++◌, take}
use postmarketos_x00td_cellu.Common.Text.{codes}
use postmarketos_x00td_cellu.Host.{
  mkdir, fopen, fputs, Kernel, World, Cmd, ok, pure, ask, emit, ◌>>=◌, if◌then◌else◌, ◌>>◌,
}

-- STATE_DIR
unfoldable pub state_dir : List ℕ
unfolding codes
state_dir = codes "/run/vendor-init"

-- snprintf into an array of 256 bytes keeps 255 and a terminator.
unfoldable pub fit : List ℕ → List ℕ
fit = take 255

unfoldable pub set_ensured : Cmd (Unit {0})
set_ensured w = ok tt (record w { dir_ensured = true })

-- The outcome of mkdir is only logged.
unfoldable pub ensure_dir : Cmd (Unit {0})
unfolding set_ensured
ensure_dir w = (if w.dir_ensured then pure tt else emit (mkdir state_dir) >> set_ensured) w

module _ ⦃K : Kernel⦄ where
  -- fopen(path, "w"), and where that succeeds the text and fclose.
  unfoldable pub put_file : List ℕ → List ℕ → Cmd (Unit {0})
  put_file path text = do
    opened ← ask (fopen path) K.fopen
    if opened then emit (fputs path text) else pure tt

  unfoldable pub write_file : List ℕ → List ℕ → Cmd (Unit {0})
  unfolding put_file
  write_file name value = do
    ensure_dir
    put_file (fit (state_dir ++ b'/' ∷ name)) (value ++ b'\n' ∷ [])

  unfoldable pub state_set_stage : List ℕ → Cmd (Unit {0})
  state_set_stage stage = write_file (codes "stage") stage

  unfoldable pub state_set_result : List ℕ → Cmd (Unit {0})
  state_set_result result = write_file (codes "state") result

  -- The text is what vsnprintf makes of the format and its arguments.
  unfoldable pub state_record : List ℕ → List ℕ → Cmd (Unit {0})
  state_record key text = write_file key (fit text)
