-- ===== src/Request/Bytes.antt =====
-- vendor-init/stage_*.c: the bytes of each stage's request.
use postmarketos_x00td_cellu.Common.{
  ℕ, ◌%◌, ◌≤◌, ◌≡◌, refl, ap, Bool, true, false, some, List, [], ◌∷◌, append_assoc, length,
  length-append, if◌then◌else◌, arith,
}
use postmarketos_x00td_cellu.Qmi.Wire.{encode, message, le32}
use postmarketos_x00td_cellu.Request.Messages
use postmarketos_x00td_cellu.Request.Messages.{ep_desc, ep_info}
use postmarketos_x00td_cellu.Request.Rules.{
  then_hdr, then_bytes, then_u8, then_u16, then_u32, patch_body-message, patch_body-flat,
  take-Built,
}

-- The elements of the longer requests.
abbrev pub sys_sel_pref : List (ℕ × List ℕ)
sys_sel_pref =
    (0x11, 0x1c ∷ 0 ∷ [])
    ∷ (0x16, 0 ∷ 0 ∷ 0 ∷ 0 ∷ 0 ∷ [])
    ∷ (0x17, 0 ∷ [])
    ∷ (0x1e, 3 ∷ 8 ∷ 5 ∷ 4 ∷ [])
    ∷ []

abbrev pub data_format : Bool → List (ℕ × List ℕ)
data_format full_ul =
    (0x11, le32 2)
    ∷ (0x12, le32 (if full_ul then 7 else 5))
    ∷ (0x13, le32 7)
    ∷ (0x15, le32 10)
    ∷ (0x16, le32 8192)
    ∷ (0x17, ep_info)
    ∷ (0x19, le32 0)
    ∷ (0x1a, 1 ∷ [])
    ∷ (0x1b, le32 0)
    ∷ (0x1c, le32 0)
    ∷ []

abbrev pub behind_apn : Bool → List (ℕ × List ℕ)
behind_apn true = (0x19, 4 ∷ []) ∷ []
behind_apn false =
    (0x16, 0 ∷ []) ∷ (0x19, 4 ∷ []) ∷ (0x31, 5 ∷ []) ∷ (0x35, 1 ∷ []) ∷ (0x39, 1 ∷ []) ∷ []

abbrev pub start_elements : List ℕ → Bool → List (ℕ × List ℕ)
start_elements apn simple_wds = (0x14, apn) ∷ behind_apn simple_wds

-- The longest APN that leaves room for the elements behind it in 256 bytes.
abbrev pub apn_limit : Bool → ℕ
apn_limit true = 242
apn_limit false = 226

abbrev pub fff2_elements : List ℕ → ℕ → ℕ → List (ℕ × List ℕ)
fff2_elements apn ip_type ext_tech =
    (0x01, 1 ∷ [])
    ∷ (0x31, ext_tech ∷ [])
    ∷ (0x14, apn)
    ∷ (0x19, ip_type ∷ [])
    ∷ (0x35, 1 ∷ [])
    ∷ []

module _ (req : List ℕ) (txid : ℕ) where
  -- A request of no elements is a header.
  pub get_mode_request_lem :
      (size : ℕ)
      → length req ≡ size
      → 7 ≤ size
      → Messages.get_mode_request req txid ≡ some (message 0 txid 0x2d [])
  unfolding Messages.get_mode_request
  get_mode_request_lem size e h =
      then_hdr _ req txid 0x2d size e h λ b built. ap some (take-Built built)

  pub get_serving_system_request_lem :
      (size : ℕ)
      → length req ≡ size
      → 7 ≤ size
      → Messages.get_serving_system_request req txid ≡ some (message 0 txid 0x24 [])
  unfolding Messages.get_serving_system_request
  get_serving_system_request_lem size e h =
      then_hdr _ req txid 0x24 size e h λ b built. ap some (take-Built built)

  pub set_mode_request_lem :
      length req ≡ 64
      → Messages.set_mode_request req txid
        ≡ some (message 0 txid 0x2e (encode ((0x01, 0 ∷ []) ∷ [])))
  unfolding Messages.set_mode_request
  set_mode_request_lem size = then_hdr _ req txid 0x2e 64 size (omega arith) λ b h.
      then_u8 _ h 0x01 0 (omega arith) λ b1 off1 h1.
        patch_body-message b1 off1 txid 0x2e 53 (encode ((0x01, 0 ∷ []) ∷ [])) h1 (omega arith)

  pub initiate_register_request_lem :
      length req ≡ 64
      → Messages.initiate_register_request req txid
        ≡ some (message 0 txid 0x22 (encode ((0x01, 1 ∷ []) ∷ [])))
  unfolding Messages.initiate_register_request
  initiate_register_request_lem size = then_hdr _ req txid 0x22 64 size (omega arith) λ b h.
      then_u8 _ h 0x01 1 (omega arith) λ b1 off1 h1.
        patch_body-message b1 off1 txid 0x22 53 (encode ((0x01, 1 ∷ []) ∷ [])) h1 (omega arith)

  -- In an array of 128 bytes, NAS_SET_SYS_SEL_PREF is the header and the four elements: LTE, UMTS and
  -- GSM, automatic selection, permanent, and LTE first in the order.
  pub set_sys_sel_pref_request_lem :
      length req ≡ 128
      → Messages.set_sys_sel_pref_request req txid
        ≡ some (message 0 txid 0x33 (encode sys_sel_pref))
  unfolding Messages.set_sys_sel_pref_request
  set_sys_sel_pref_request_lem size = then_hdr _ req txid 0x33 128 size (omega arith) λ b h.
      then_u16 _ h 0x11 0x1c (omega arith) λ b1 off1 h1.
        then_bytes _ h1 0x16 (0 ∷ 0 ∷ 0 ∷ 0 ∷ 0 ∷ []) 5 refl (omega arith) (omega arith)
          λ b2 off2 h2. then_u8 _ h2 0x17 0 (omega arith) λ b3 off3 h3.
            then_bytes _ h3 0x1e (3 ∷ 8 ∷ 5 ∷ 4 ∷ []) 4 refl (omega arith) (omega arith)
              λ b4 off4 h4.
                patch_body-message b4 off4 txid 0x33 97 (encode sys_sel_pref) h4 (omega arith)

  -- DPM_OPEN_PORT_REQ announces the one endpoint.
  pub open_port_request_lem :
      length req ≡ 64
      → Messages.open_port_request req txid
        ≡ some (message 0 txid 0x20 (encode ((0x11, ep_desc) ∷ [])))
  unfolding Messages.open_port_request
  open_port_request_lem size = then_hdr _ req txid 0x20 64 size (omega arith) λ b h.
      then_bytes _ h 0x11 ep_desc 17 refl (omega arith) (omega arith) λ b1 off1 h1.
        patch_body-message b1 off1 txid 0x20 37 (encode ((0x11, ep_desc) ∷ [])) h1 (omega arith)

  -- In an array of 128 bytes, WDA_SET_DATA_FORMAT is the header and the ten elements, with the
  -- uplink protocol that the flag asks for.
  pub set_data_format_request_lem :
      (full_ul : Bool)
      → length req ≡ 128
      → Messages.set_data_format_request req txid full_ul
        ≡ some (message 0 txid 0x20 (encode (data_format full_ul)))
  unfolding Messages.set_data_format_request
  set_data_format_request_lem full_ul size = then_hdr _ req txid 0x20 128 size (omega arith) λ b h.
      then_u32 _ h 0x11 2 (omega arith) λ b1 off1 h1.
        then_u32 _ h1 0x12 (if full_ul then 7 else 5) (omega arith) λ b2 off2 h2.
          then_u32 _ h2 0x13 7 (omega arith) λ b3 off3 h3.
            then_u32 _ h3 0x15 10 (omega arith) λ b4 off4 h4.
              then_u32 _ h4 0x16 8192 (omega arith) λ b5 off5 h5.
                then_bytes _ h5 0x17 ep_info 8 refl (omega arith) (omega arith) λ b6 off6 h6.
                  then_u32 _ h6 0x19 0 (omega arith) λ b7 off7 h7.
                    then_u8 _ h7 0x1a 1 (omega arith) λ b8 off8 h8.
                      then_u32 _ h8 0x1b 0 (omega arith) λ b9 off9 h9.
                        then_u32 _ h9 0x1c 0 (omega arith) λ b10 off10 h10.
                          patch_body-message b10 off10 txid 0x20 50 (encode (data_format full_ul))
                            h10 (omega arith)

  pub bind_mux_request_lem :
      (m : ℕ)
      → length req ≡ 64
      → Messages.bind_mux_request req txid m
        ≡ some (message 0 txid 0xa2 (encode ((0x10, ep_info) ∷ (0x11, (m % 256) ∷ []) ∷ [])))
  unfolding Messages.bind_mux_request
  bind_mux_request_lem m size = then_hdr _ req txid 0xa2 64 size (omega arith) λ b h.
      then_bytes _ h 0x10 ep_info 8 refl (omega arith) (omega arith) λ b1 off1 h1.
        then_u8 _ h1 0x11 (m % 256) (omega arith) λ b2 off2 h2.
          patch_body-message b2 off2 txid 0xa2 42
            (encode ((0x10, ep_info) ∷ (0x11, (m % 256) ∷ []) ∷ [])) h2 (omega arith)

  pub set_mode_af_request_lem :
      length req ≡ 256
      → Messages.set_mode_af_request req txid
        ≡ some (message 0 txid 0xaf (encode ((0x01, le32 2) ∷ [])))
  unfolding Messages.set_mode_af_request
  set_mode_af_request_lem size = then_hdr _ req txid 0xaf 256 size (omega arith) λ b h.
      then_u32 _ h 0x01 2 (omega arith) λ b1 off1 h1.
        patch_body-message b1 off1 txid 0xaf 242 (encode ((0x01, le32 2) ∷ [])) h1 (omega arith)

  pub set_ip_family_request_lem :
      length req ≡ 256
      → Messages.set_ip_family_request req txid
        ≡ some (message 0 txid 0x4d (encode ((0x01, 4 ∷ []) ∷ [])))
  unfolding Messages.set_ip_family_request
  set_ip_family_request_lem size = then_hdr _ req txid 0x4d 256 size (omega arith) λ b h.
      then_u8 _ h 0x01 4 (omega arith) λ b1 off1 h1.
        patch_body-message b1 off1 txid 0x4d 245 (encode ((0x01, 4 ∷ []) ∷ [])) h1 (omega arith)

  pub get_settings_request_lem :
      length req ≡ 64
      → Messages.get_settings_request req txid
        ≡ some (message 0 txid 0x2d (encode ((0x10, le32 0xffff_ffff) ∷ [])))
  unfolding Messages.get_settings_request
  get_settings_request_lem size = then_hdr _ req txid 0x2d 64 size (omega arith) λ b h.
      then_u32 _ h 0x10 0xffff_ffff (omega arith) λ b1 off1 h1.
        patch_body-message b1 off1 txid 0x2d 50 (encode ((0x10, le32 0xffff_ffff) ∷ [])) h1
          (omega arith)

  -- In an array of 256 bytes, WDS_START_NETWORK is the header, the APN and the elements of the
  -- chosen form, if the APN leaves room for them.
  pub start_network_request_lem :
      (apn : List ℕ) (simple_wds : Bool)
      → length req ≡ 256
      → length apn ≤ apn_limit simple_wds
      → Messages.start_network_request req txid apn simple_wds
        ≡ some (message 0 txid 0x20 (encode (start_elements apn simple_wds)))
  unfolding Messages.start_network_request
  start_network_request_lem apn true size short =
      then_hdr _ req txid 0x20 256 size (omega arith) λ b h.
        then_bytes _ h 0x14 apn (length apn) refl (omega arith) (omega arith) λ b1 off1 h1.
          then_u8 _ h1 0x19 4 (omega arith) λ b2 off2 h2.
            patch_body-message b2 off2 txid 0x20 _ (encode (start_elements apn true)) h2
              (omega (arith, length-append apn (0x19 ∷ 1 ∷ 0 ∷ 4 ∷ [])))
  start_network_request_lem apn false size short =
      then_hdr _ req txid 0x20 256 size (omega arith) λ b h.
        then_bytes _ h 0x14 apn (length apn) refl (omega arith) (omega arith) λ b1 off1 h1.
          then_u8 _ h1 0x16 0 (omega arith) λ b2 off2 h2.
            then_u8 _ h2 0x19 4 (omega arith) λ b3 off3 h3.
              then_u8 _ h3 0x31 5 (omega arith) λ b4 off4 h4.
                then_u8 _ h4 0x35 1 (omega arith) λ b5 off5 h5.
                  then_u8 _ h5 0x39 1 (omega arith) λ b6 off6 h6.
                    patch_body-flat b6 off6 txid 0x20 _ (encode (start_elements apn false)) h6
                      (simp append_assoc)
                      (omega (arith, length-append apn (encode (behind_apn false))))
