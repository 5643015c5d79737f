-- ===== src/Examples/Runs.antt =====
-- Whole runs of vendor-init on the modem of the examples.
use postmarketos_x00td_cellu.Common.{ℕ, ◌≡◌, refl, true, ◌⊎◌, [], arith}
use postmarketos_x00td_cellu.Common.{List, ◌∷◌, ◌++◌}
use postmarketos_x00td_cellu.Common.Text.{codes}
use postmarketos_x00td_cellu.Context.{Ctx, StageFn}
use postmarketos_x00td_cellu.Host.{◌>>=◌}
use postmarketos_x00td_cellu.Main.Order.{carry_on, run_stages-append}
use postmarketos_x00td_cellu.Stage.DmsOnline.{stage_dms_online}
use postmarketos_x00td_cellu.Stage.Dsd.{stage_dsd}
use postmarketos_x00td_cellu.Stage.PostTune.{stage_post_tune}
use postmarketos_x00td_cellu.Host.Rules.{Brings, Quiet}
use postmarketos_x00td_cellu.Host.Traces.{Traces}
use postmarketos_x00td_cellu.Main.{initial_ctx, run_main, run_stages}
use postmarketos_x00td_cellu.Main.Close.{IsExitCode, run_main-Brings}
use postmarketos_x00td_cellu.Main.DryRun.{IsLocal, run_main-Local}
use postmarketos_x00td_cellu.Stage.NasRat.{wait_for_lte, wait_for_lte-Quiet}
use postmarketos_x00td_cellu.Examples.Modem.{start, modem, modem-Clock, modem-Signals}

run_main-Brings_example :
    Brings ⦃K = modem⦄ []
      (run_main ⦃K = modem⦄ initial_ctx)
      (λ code gs. (gs ≡ []) × IsExitCode code)
unfolding initial_ctx
run_main-Brings_example =
    run_main-Brings ⦃K = modem⦄ modem-Clock modem-Signals initial_ctx [] (omega arith)

abbrev dry_ctx : Ctx
dry_ctx = record initial_ctx { dry_run = true }

run_main-Local_example :
    Traces IsLocal (run_main ⦃K = modem⦄ dry_ctx) (λ code. (code ≡ 0) ⊎ (code ≡ 130))
run_main-Local_example = run_main-Local ⦃K = modem⦄ modem-Signals dry_ctx refl

wait_for_lte-Quiet_example : Quiet ⦃K = modem⦄ (wait_for_lte ⦃K = modem⦄ 7 5 4 0x04)
wait_for_lte-Quiet_example = wait_for_lte-Quiet ⦃K = modem⦄ modem-Clock 7 5 4 0x04

abbrev first_stages : List (List ℕ × StageFn)
first_stages = (codes "dms_online", stage_dms_online ⦃K = modem⦄) ∷ []

abbrev next_stages : List (List ℕ × StageFn)
next_stages =
    (codes "dsd", stage_dsd ⦃K = modem⦄) ∷ (codes "post_tune", stage_post_tune ⦃K = modem⦄) ∷ []

run_stages-append_example :
    run_stages ⦃K = modem⦄ (first_stages ++ next_stages) initial_ctx start
    ≡ (run_stages ⦃K = modem⦄ first_stages initial_ctx >>= carry_on ⦃K = modem⦄ next_stages) start
run_stages-append_example = run_stages-append ⦃K = modem⦄ first_stages next_stages initial_ctx start
