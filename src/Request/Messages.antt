-- ===== src/Request/Messages.antt =====
-- The requests that vendor-init/stage_*.c compose, each in the array `req` of its function. A
-- request of no elements is sent with the length that the header was given.
use postmarketos_x00td_cellu.Common.{
  ℕ, ◌+◌, ◌%◌, Bool, Option, some, List, [], ◌∷◌, length, take, if◌then◌else◌,
}
use postmarketos_x00td_cellu.Common.Fault.{◌>>=◌}
use postmarketos_x00td_cellu.Context.{
  wda_dl_proto, wda_ul_proto_v1, wda_ul_proto_v3, wda_dl_size, wda_dl_dgrams,
}
use postmarketos_x00td_cellu.Qmi.{qmi_hdr_req, qmi_tlv_bytes, qmi_tlv_u8, qmi_tlv_u16, qmi_tlv_u32}
use postmarketos_x00td_cellu.Request.{patch_body}

-- stage_dms_online.c
abbrev pub msg_dms_get_operating_mode : ℕ
msg_dms_get_operating_mode = 0x002d

abbrev pub msg_dms_set_operating_mode : ℕ
msg_dms_set_operating_mode = 0x002e

abbrev pub dms_mode_online : ℕ
dms_mode_online = 0x00

unfoldable pub get_mode_request : List ℕ → ℕ → Option (List ℕ)
get_mode_request req txid = do
  (b, off) ← qmi_hdr_req req txid msg_dms_get_operating_mode 0
  some (take off b)

unfoldable pub set_mode_request : List ℕ → ℕ → Option (List ℕ)
set_mode_request req txid = do
  (b, after_hdr) ← qmi_hdr_req req txid msg_dms_set_operating_mode 0
  (b', off) ← qmi_tlv_u8 b after_hdr 0x01 dms_mode_online
  patch_body b' after_hdr off

-- stage_nas_rat.c
abbrev pub msg_nas_set_sys_sel_pref : ℕ
msg_nas_set_sys_sel_pref = 0x0033

abbrev pub msg_nas_initiate_nw_register : ℕ
msg_nas_initiate_nw_register = 0x0022

abbrev pub msg_nas_get_serving_system : ℕ
msg_nas_get_serving_system = 0x0024

-- LTE, UMTS and GSM, which are disjoint bits.
abbrev pub rat_mode_lte_preferred : ℕ
rat_mode_lte_preferred = 0x0010 + 0x0008 + 0x0004

abbrev pub radio_if_none : ℕ
radio_if_none = 0x00

abbrev pub radio_if_gsm : ℕ
radio_if_gsm = 0x04

abbrev pub radio_if_umts : ℕ
radio_if_umts = 0x05

abbrev pub radio_if_lte : ℕ
radio_if_lte = 0x08

unfoldable pub set_sys_sel_pref_request : List ℕ → ℕ → Option (List ℕ)
set_sys_sel_pref_request req txid = do
  (b, after_hdr) ← qmi_hdr_req req txid msg_nas_set_sys_sel_pref 0
  (b1, off1) ← qmi_tlv_u16 b after_hdr 0x11 rat_mode_lte_preferred
  (b2, off2) ← qmi_tlv_bytes b1 off1 0x16 (0x00 ∷ 0x00 ∷ 0x00 ∷ 0x00 ∷ 0x00 ∷ []) 5
  (b3, off3) ← qmi_tlv_u8 b2 off2 0x17 0x00
  (b4, off4) ← qmi_tlv_bytes b3 off3 0x1e (3 ∷ radio_if_lte ∷ radio_if_umts ∷ radio_if_gsm ∷ []) 4
  patch_body b4 after_hdr off4

unfoldable pub initiate_register_request : List ℕ → ℕ → Option (List ℕ)
initiate_register_request req txid = do
  (b, after_hdr) ← qmi_hdr_req req txid msg_nas_initiate_nw_register 0
  (b', off) ← qmi_tlv_u8 b after_hdr 0x01 0x01
  patch_body b' after_hdr off

unfoldable pub get_serving_system_request : List ℕ → ℕ → Option (List ℕ)
get_serving_system_request req txid = do
  (b, off) ← qmi_hdr_req req txid msg_nas_get_serving_system 0
  some (take off b)

-- stage_dpm_open.c: one endpoint of type 4, interface 1, transmit pipe 4, receive pipe 5.
abbrev pub msg_dpm_open_port_req : ℕ
msg_dpm_open_port_req = 0x0020

abbrev pub ep_desc : List ℕ
ep_desc = 1 ∷ 4 ∷ 0 ∷ 0 ∷ 0 ∷ 1 ∷ 0 ∷ 0 ∷ 0 ∷ 4 ∷ 0 ∷ 0 ∷ 0 ∷ 5 ∷ 0 ∷ 0 ∷ 0 ∷ []

unfoldable pub open_port_request : List ℕ → ℕ → Option (List ℕ)
open_port_request req txid = do
  (b, after_hdr) ← qmi_hdr_req req txid msg_dpm_open_port_req 0
  (b', off) ← qmi_tlv_bytes b after_hdr 0x11 ep_desc 17
  patch_body b' after_hdr off

-- stage_wda_set.c, stage_bind_mux.c: endpoint type 4, interface 1.
abbrev pub ep_info : List ℕ
ep_info = 4 ∷ 0 ∷ 0 ∷ 0 ∷ 1 ∷ 0 ∷ 0 ∷ 0 ∷ []

abbrev pub msg_wda_set_data_format : ℕ
msg_wda_set_data_format = 0x0020

unfoldable pub set_data_format_request : List ℕ → ℕ → Bool → Option (List ℕ)
set_data_format_request req txid full_ul = do
  (b, after_hdr) ← qmi_hdr_req req txid msg_wda_set_data_format 0
  (b1, off1) ← qmi_tlv_u32 b after_hdr 0x11 2
  (b2, off2) ← qmi_tlv_u32 b1 off1 0x12 (if full_ul then wda_ul_proto_v3 else wda_ul_proto_v1)
  (b3, off3) ← qmi_tlv_u32 b2 off2 0x13 wda_dl_proto
  (b4, off4) ← qmi_tlv_u32 b3 off3 0x15 wda_dl_dgrams
  (b5, off5) ← qmi_tlv_u32 b4 off4 0x16 wda_dl_size
  (b6, off6) ← qmi_tlv_bytes b5 off5 0x17 ep_info 8
  (b7, off7) ← qmi_tlv_u32 b6 off6 0x19 0
  (b8, off8) ← qmi_tlv_u8 b7 off7 0x1a 1
  (b9, off9) ← qmi_tlv_u32 b8 off8 0x1b 0
  (b10, off10) ← qmi_tlv_u32 b9 off9 0x1c 0
  patch_body b10 after_hdr off10

abbrev pub msg_bind_mux : ℕ
msg_bind_mux = 0x00a2

-- The channel is converted to uint8_t.
unfoldable pub bind_mux_request : List ℕ → ℕ → ℕ → Option (List ℕ)
bind_mux_request req txid m = do
  (b, after_hdr) ← qmi_hdr_req req txid msg_bind_mux 0
  (b1, off1) ← qmi_tlv_bytes b after_hdr 0x10 ep_info 8
  (b2, off2) ← qmi_tlv_u8 b1 off1 0x11 (m % 256)
  patch_body b2 after_hdr off2

-- stage_wds_start.c
abbrev pub msg_af_set_mode : ℕ
msg_af_set_mode = 0x00af

abbrev pub msg_4d_set_ip_family : ℕ
msg_4d_set_ip_family = 0x004d

abbrev pub msg_start_network : ℕ
msg_start_network = 0x0020

abbrev pub msg_get_settings : ℕ
msg_get_settings = 0x002d

abbrev pub ip_family_ipv4 : ℕ
ip_family_ipv4 = 0x04

unfoldable pub set_mode_af_request : List ℕ → ℕ → Option (List ℕ)
set_mode_af_request req txid = do
  (b, after_hdr) ← qmi_hdr_req req txid msg_af_set_mode 0
  (b', off) ← qmi_tlv_u32 b after_hdr 0x01 0x00000002
  patch_body b' after_hdr off

unfoldable pub set_ip_family_request : List ℕ → ℕ → Option (List ℕ)
set_ip_family_request req txid = do
  (b, after_hdr) ← qmi_hdr_req req txid msg_4d_set_ip_family 0
  (b', off) ← qmi_tlv_u8 b after_hdr 0x01 ip_family_ipv4
  patch_body b' after_hdr off

unfoldable pub start_network_request : List ℕ → ℕ → List ℕ → Bool → Option (List ℕ)
start_network_request req txid apn simple_wds = do
  (b, after_hdr) ← qmi_hdr_req req txid msg_start_network 0
  if simple_wds
      then (do
        (b1, off1) ← qmi_tlv_bytes b after_hdr 0x14 apn (length apn)
        (b2, off2) ← qmi_tlv_u8 b1 off1 0x19 ip_family_ipv4
        patch_body b2 after_hdr off2)
      else do
        (b1, off1) ← qmi_tlv_bytes b after_hdr 0x14 apn (length apn)
        (b2, off2) ← qmi_tlv_u8 b1 off1 0x16 0x00
        (b3, off3) ← qmi_tlv_u8 b2 off2 0x19 ip_family_ipv4
        (b4, off4) ← qmi_tlv_u8 b3 off3 0x31 0x05
        (b5, off5) ← qmi_tlv_u8 b4 off4 0x35 0x01
        (b6, off6) ← qmi_tlv_u8 b5 off5 0x39 0x01
        patch_body b6 after_hdr off6

unfoldable pub get_settings_request : List ℕ → ℕ → Option (List ℕ)
get_settings_request req txid = do
  (b, after_hdr) ← qmi_hdr_req req txid msg_get_settings 0
  (b', off) ← qmi_tlv_u32 b after_hdr 0x10 0xffff_ffff
  patch_body b' after_hdr off

-- stage_fff2.c
abbrev pub msg_fff2 : ℕ
msg_fff2 = 0xfff2

abbrev pub ext_tech_internet : ℕ
ext_tech_internet = 0x05

unfoldable pub fff2_request : List ℕ → ℕ → List ℕ → ℕ → ℕ → Option (List ℕ)
fff2_request req txid apn ip_type ext_tech = do
  (b, after_hdr) ← qmi_hdr_req req txid msg_fff2 0
  (b1, off1) ← qmi_tlv_u8 b after_hdr 0x01 0x01
  (b2, off2) ← qmi_tlv_u8 b1 off1 0x31 ext_tech
  (b3, off3) ← qmi_tlv_bytes b2 off2 0x14 apn (length apn)
  (b4, off4) ← qmi_tlv_u8 b3 off3 0x19 ip_type
  (b5, off5) ← qmi_tlv_u8 b4 off4 0x35 0x01
  patch_body b5 after_hdr off5

-- stage_iattach.c: the length is computed before, as a uint16_t, and never patched.
abbrev pub msg_set_initial_attach_apn : ℕ
msg_set_initial_attach_apn = 0x00a3

unfoldable pub initial_attach_request : List ℕ → ℕ → List ℕ → Option (List ℕ)
initial_attach_request req txid apn = do
  let body_len = 3 + length apn + (3 + 1)
  (b, off) ← qmi_hdr_req req txid msg_set_initial_attach_apn (body_len % 65536)
  (b1, off1) ← qmi_tlv_bytes b off 0x10 apn (length apn)
  (b2, off2) ← qmi_tlv_u8 b1 off1 0x14 3
  some (take off2 b2)
