-- ===== src/Main.antt =====
-- vendor-init/vendor-init.c: options, the stages in order, and the hold that keeps the bearer up.
pub mod Close
pub mod Order
pub mod DryRun
use postmarketos_x00td_cellu.Common.{
  ℕ, zero, suc, Bool, true, false, Option, none, some, List, [], ◌∷◌, ◌++◌, ◌==◌, ◌⊎◌, inl, inr,
}
use postmarketos_x00td_cellu.Common.Int.{ℤ, pos}
use postmarketos_x00td_cellu.Common.Text.{codes, show_d}
use postmarketos_x00td_cellu.Context.{Ctx, StageFn}
use postmarketos_x00td_cellu.Host.{
  close, pause, Kernel, Cmd, pure, look, emit, out_of_rounds, ◌>>=◌, ◌>>◌, if◌then◌else◌, on_some,
}
use postmarketos_x00td_cellu.Stage.BindMux.{stage_bind_mux}
use postmarketos_x00td_cellu.Stage.DmsOnline.{stage_dms_online}
use postmarketos_x00td_cellu.Stage.DpmOpen.{stage_dpm_open}
use postmarketos_x00td_cellu.Stage.Dsd.{stage_dsd}
use postmarketos_x00td_cellu.Stage.NasRat.{stage_nas_rat}
use postmarketos_x00td_cellu.Stage.PostTune.{stage_post_tune}
use postmarketos_x00td_cellu.Stage.WdaSet.{stage_wda_set}
use postmarketos_x00td_cellu.Stage.WdsStart.{stage_wds_start}
use postmarketos_x00td_cellu.State.{state_set_stage, state_set_result, state_record}

-- What getopt_long returns one after the other; `other` is an unknown option.
pub data Opt : Type 0 where
  apn : List ℕ → Opt
  num_muxes : ℤ → Opt
  skip_mm : Opt
  dry_run : Opt
  log_file : List ℕ → Opt
  simple_wds : Opt
  full_wds : Opt
  full_ul : Opt
  verbose : Opt
  help : Opt
  other : Opt

pub record Settings : Type 0 where
  pub ctx : Ctx
  pub verbose : Bool
  pub log_file : Option (List ℕ)

-- DEFAULT_APN
unfoldable pub default_apn : List ℕ
unfolding codes
default_apn = codes "internet"

-- Every field that the initializer does not name is 0.
unfoldable pub initial_ctx : Ctx
unfolding default_apn
initial_ctx = record {
  fd = none;
  txid = 1;
  wds_port = 0;
  wda_port = 0;
  dpm_port = 0;
  dsd_port = 0;
  bearer_pkt_data_handle = 0;
  bearer_ipv4 = 0;
  bearer_gw = 0;
  bearer_mask = 0;
  bearer_dns1 = 0;
  bearer_dns2 = 0;
  bearer_mtu = 0;
  apn = default_apn;
  dry_run = false;
  skip_mm = false;
  num_muxes = pos 1;
  full_ul = false;
  simple_wds = true;
}

-- The settings, or the exit code after the usage text.
unfoldable pub parse_options : List Opt → Settings → ℕ ⊎ Settings
parse_options [] s = inr s
parse_options (apn name ∷ opts) s =
    parse_options opts (record s { ctx = record s.ctx { apn = name } })
parse_options (num_muxes n ∷ opts) s =
    parse_options opts (record s { ctx = record s.ctx { num_muxes = n } })
parse_options (skip_mm ∷ opts) s =
    parse_options opts (record s { ctx = record s.ctx { skip_mm = true } })
parse_options (dry_run ∷ opts) s =
    parse_options opts (record s { ctx = record s.ctx { dry_run = true } })
parse_options (log_file path ∷ opts) s = parse_options opts (record s { log_file = some path })
parse_options (simple_wds ∷ opts) s =
    parse_options opts (record s { ctx = record s.ctx { simple_wds = true } })
parse_options (full_wds ∷ opts) s =
    parse_options opts (record s { ctx = record s.ctx { simple_wds = false } })
parse_options (full_ul ∷ opts) s =
    parse_options opts (record s { ctx = record s.ctx { full_ul = true } })
parse_options (verbose ∷ opts) s = parse_options opts (record s { verbose = true })
parse_options (help ∷ opts) s = inl 0
parse_options (other ∷ opts) s = inl 1

-- 0 and 1 of a flag, by "%d".
abbrev pub flag : Bool → List ℕ
flag true = codes "1"
flag false = codes "0"

module _ ⦃K : Kernel⦄ where
  -- STAGES
  abbrev pub stages : List (List ℕ × StageFn)
  stages =
      (codes "dms_online", stage_dms_online)
      ∷ (codes "nas_rat", stage_nas_rat)
      ∷ (codes "dpm_open", stage_dpm_open)
      ∷ (codes "wda_set", stage_wda_set)
      ∷ (codes "dsd", stage_dsd)
      ∷ (codes "bind_mux", stage_bind_mux)
      ∷ (codes "wds_start", stage_wds_start)
      ∷ (codes "post_tune", stage_post_tune)
      ∷ []

  -- What follows a stage: the next ones, or the end.
  abbrev pub after_stage : List ℕ → (Ctx → Cmd (ℕ × Ctx)) → ℕ × Ctx → Cmd (ℕ × Ctx)
  after_stage name next (rc, ctx) =
      if rc == 0 then next ctx else state_set_result (codes "FAILED_" ++ name) >> pure (rc, ctx)

  unfoldable pub run_stages : List (List ℕ × StageFn) → Ctx → Cmd (ℕ × Ctx)
  run_stages [] ctx = pure (0, ctx)
  run_stages ((name, fn) ∷ rest) ctx = do
    stopped ← look K.stopped
    if stopped
        then state_set_result (codes "INTERRUPTED") >> pure (130, ctx)
        else do state_set_stage name; left ← fn ctx; after_stage name (run_stages rest) left

  -- `while (!g_stop) pause();`
  unfoldable pub hold : ℕ → Cmd (Unit {0})
  hold zero = out_of_rounds
  hold (suc rounds) = do
    stopped ← look K.stopped
    if stopped then pure tt else emit pause >> hold rounds

  -- What main does where every stage succeeded, and the close of the bearer socket.
  unfoldable pub finish : ℕ × Ctx → Cmd ℕ
  unfolding hold
  finish (rc, ctx) = do
    if rc == 0 then state_set_result (codes "READY") >> hold 2 else pure tt
    on_some ctx.fd (pure tt) λ fd. emit (close fd)
    pure rc

  -- main behind the options: its exit code.
  unfoldable pub run_main : Ctx → Cmd ℕ
  unfolding run_stages finish
  run_main ctx = do
    state_set_result (codes "STARTING")
    state_record (codes "apn") ctx.apn
    state_record (codes "num_muxes") (show_d ctx.num_muxes)
    state_record (codes "dry_run") (flag ctx.dry_run)
    left ← run_stages stages (record ctx { fd = none })
    finish left

  unfoldable pub main : List Opt → Cmd ℕ
  unfolding parse_options initial_ctx run_main
  main opts =
      elim (parse_options opts (record { ctx = initial_ctx; verbose = false; log_file = none })) [
        | inl rc ↦ pure rc
        | inr settings ↦ run_main settings.ctx
      ]
