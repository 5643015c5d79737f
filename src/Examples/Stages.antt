-- ===== src/Examples/Stages.antt =====
-- Stages on the modem of the examples, prefix lengths and radio interfaces.
use postmarketos_x00td_cellu.Common.{◌-◌, ◌^◌, ◌≡◌, refl, some, false, List, [], ◌∷◌, arith}
use postmarketos_x00td_cellu.Context.{Ctx}
use postmarketos_x00td_cellu.Host.Rules.{Brings}
use postmarketos_x00td_cellu.Main.{initial_ctx}
use postmarketos_x00td_cellu.Qmi.Wire.{Tlv, encode, message}
use postmarketos_x00td_cellu.Stage.Outcome.{Closed}
use postmarketos_x00td_cellu.Stage.BindMux.{stage_bind_mux, Held, stage_bind_mux-Held}
use postmarketos_x00td_cellu.Stage.Dsd.{stage_dsd, stage_dsd-Closed}
use postmarketos_x00td_cellu.Stage.PostTune.{stage_post_tune, stage_post_tune-Closed}
use postmarketos_x00td_cellu.Stage.Prefix.{prefix_of, prefix_of-netmask}
use postmarketos_x00td_cellu.Stage.Radios.{best_radio, serving_radio-encode}
use postmarketos_x00td_cellu.Stage.ServingSystem.{serving_radio}
use postmarketos_x00td_cellu.Stage.WdsStart.{stage_wds_start, stage_wds_start-Closed}
use postmarketos_x00td_cellu.Examples.Modem.{modem}

-- A context as bind_mux leaves it.
abbrev bound : Ctx
bound = record initial_ctx { fd = some 7; wds_port = 5; apn = b'a' ∷ b'b' ∷ []; simple_wds = false }

stage_bind_mux-Held_example :
    Brings ⦃K = modem⦄
      (3 ∷ [])
      (stage_bind_mux ⦃K = modem⦄ initial_ctx)
      (Held ⦃K = modem⦄ initial_ctx (3 ∷ []))
unfolding initial_ctx
stage_bind_mux-Held_example = stage_bind_mux-Held ⦃K = modem⦄ initial_ctx (3 ∷ []) refl

stage_wds_start-Closed_example :
    Brings ⦃K = modem⦄ (7 ∷ []) (stage_wds_start ⦃K = modem⦄ bound) (Closed bound (7 ∷ []))
stage_wds_start-Closed_example = stage_wds_start-Closed ⦃K = modem⦄ (7 ∷ []) bound (omega arith)

stage_dsd-Closed_example :
    Brings ⦃K = modem⦄ [] (stage_dsd ⦃K = modem⦄ initial_ctx) (Closed initial_ctx [])
stage_dsd-Closed_example = stage_dsd-Closed ⦃K = modem⦄ initial_ctx []

stage_post_tune-Closed_example :
    Brings ⦃K = modem⦄ (7 ∷ []) (stage_post_tune ⦃K = modem⦄ bound) (Closed bound (7 ∷ []))
stage_post_tune-Closed_example = stage_post_tune-Closed ⦃K = modem⦄ bound (7 ∷ [])

prefix_of-netmask_example : prefix_of (4294967296 - 2 ^ (32 - 29)) ≡ some 29
prefix_of-netmask_example = prefix_of-netmask 29 (omega arith)

-- A reply of GET_SERVING_SYSTEM that reports GSM and LTE, and one byte behind them.
abbrev gsm_and_lte : List Tlv
gsm_and_lte = (0x02, 0 ∷ 0 ∷ 0 ∷ 0 ∷ []) ∷ (0x01, 1 ∷ 1 ∷ 1 ∷ 2 ∷ 2 ∷ 0x04 ∷ 0x08 ∷ 9 ∷ []) ∷ []

serving_radio-encode_example :
    serving_radio (message 2 4 0x24 (encode gsm_and_lte)) ≡ some (best_radio 0x04 (0x08 ∷ []))
serving_radio-encode_example =
    serving_radio-encode 2 4 0x24 1 1 1 2 0x04 (0x08 ∷ []) (9 ∷ []) gsm_and_lte
      (omega arith, (omega arith, tt)) refl refl refl
