-- ===== src/Context.antt =====
-- vendor-init/vendor-init.h: the context that every stage is given and updates.
use postmarketos_x00td_cellu.Common.{ℕ, ◌+◌, ◌%◌, Bool, Option, none, some, List}
use postmarketos_x00td_cellu.Common.Int.{ℤ}
use postmarketos_x00td_cellu.Host.{Cmd}

abbrev pub wda_dl_proto : ℕ
wda_dl_proto = 7

abbrev pub wda_ul_proto_v1 : ℕ
wda_ul_proto_v1 = 5

abbrev pub wda_ul_proto_v3 : ℕ
wda_ul_proto_v3 = 7

abbrev pub wda_dl_size : ℕ
wda_dl_size = 8192

abbrev pub wda_dl_dgrams : ℕ
wda_dl_dgrams = 10

-- `fd` is `none` for -1. `apn` holds the bytes before the terminator. The flags are 0 or 1.
pub record Ctx : Type 0 where
  pub fd : Option ℕ
  pub txid : ℕ
  pub wds_port : ℕ
  pub wda_port : ℕ
  pub dpm_port : ℕ
  pub dsd_port : ℕ
  pub bearer_pkt_data_handle : ℕ
  pub bearer_ipv4 : ℕ
  pub bearer_gw : ℕ
  pub bearer_mask : ℕ
  pub bearer_dns1 : ℕ
  pub bearer_dns2 : ℕ
  pub bearer_mtu : ℕ
  pub apn : List ℕ
  pub dry_run : Bool
  pub skip_mm : Bool
  pub num_muxes : ℤ
  pub full_ul : Bool
  pub simple_wds : Bool

-- Its exit code and the context that it leaves.
abbrev pub StageFn : Type 0
StageFn = Ctx → Cmd (ℕ × Ctx)

-- The descriptor as it is passed to a call; -1 stands as its bit pattern.
abbrev pub fd_arg : Option ℕ → ℕ
fd_arg none = 0xffff_ffff
fd_arg (some fd) = fd

-- A uint16_t counter after `++`.
unfoldable pub next_txid : ℕ → ℕ
next_txid txid = (txid + 1) % 65536
