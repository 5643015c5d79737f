-- ===== src/Qrtr.antt =====
-- vendor-init/qrtr.c: service lookup and one QMI transaction over a datagram socket.
pub mod Replies
pub mod Lookup
use postmarketos_x00td_cellu.Common.{
  ℕ, zero, suc, ◌+◌, ◌*◌, Bool, true, false, not, ◌&&◌, Option, none, some, List, length, take, ltb,
  ◌==◌, bit_or,
}
use postmarketos_x00td_cellu.Common.Fault.{read}
use postmarketos_x00td_cellu.Host.{
  CtrlPkt, ctrl, qmi, socket, sendto, poll, recv_ctrl, recv_qmi, Kernel, Cmd, pure, lift, ask,
  ◌>>=◌, if◌then◌else◌, on_some,
}

-- Service numbers, and the control port with the two commands that lookup uses.
abbrev pub qrtr_svc_wds : ℕ
qrtr_svc_wds = 0x0001

abbrev pub qrtr_svc_dms : ℕ
qrtr_svc_dms = 0x0002

abbrev pub qrtr_svc_nas : ℕ
qrtr_svc_nas = 0x0003

abbrev pub qrtr_svc_wda : ℕ
qrtr_svc_wda = 0x001a

abbrev pub qrtr_svc_dpm : ℕ
qrtr_svc_dpm = 0x002f

abbrev pub qrtr_svc_dsd : ℕ
qrtr_svc_dsd = 0x0042

abbrev pub qrtr_port_ctrl : ℕ
qrtr_port_ctrl = 0xffff_fffe

abbrev pub qrtr_type_new_server : ℕ
qrtr_type_new_server = 4

abbrev pub qrtr_type_new_lookup : ℕ
qrtr_type_new_lookup = 10

abbrev pub lookup_request : ℕ → CtrlPkt
lookup_request service = record {
  cmd = qrtr_type_new_lookup;
  service = service;
  version = 0;
  node = 0;
  port = 0;
}

-- What the lookup loop accepts.
abbrev pub is_answer : ℕ → CtrlPkt → Bool
is_answer service pkt =
    (pkt.cmd == qrtr_type_new_server) && (pkt.service == service) && not (pkt.port == 0)

module _ ⦃K : Kernel⦄ where
  unfoldable pub qrtr_open : Cmd (Option ℕ)
  qrtr_open = ask socket K.socket

  -- The rounds left. `continue` is the next round.
  unfoldable pub lookup_loop : ℕ → ℕ → ℕ → Cmd ℕ
  lookup_loop zero fd service = pure 0
  lookup_loop (suc rounds) fd service = do
    ready ← ask (poll fd 500) K.poll
    if not ready then pure 0 else do
      received ← ask (recv_ctrl fd) K.recv_ctrl
      let next = lookup_loop rounds fd service
      on_some received next λ pkt. if is_answer service pkt then pure pkt.port else next

  -- The port of the service, or 0.
  unfoldable pub qrtr_lookup : ℕ → ℕ → Cmd ℕ
  qrtr_lookup fd service = do
    sent ← ask (sendto fd 1 qrtr_port_ctrl (ctrl (lookup_request service))) K.sendto
    if not sent then pure 0 else lookup_loop 64 fd service

  -- What the loop does with the `n` bytes that it received; `next` is the next round.
  unfoldable pub check_reply : ℕ → Cmd (Option (List ℕ)) → List ℕ → Cmd (Option (List ℕ))
  check_reply msg_id next resp = if ltb (length resp) 5 then next else do
    lo ← lift (read resp 3)
    hi ← lift (read resp 4)
    ctl ← lift (read resp 0)
    if (ctl == 0x02) && (bit_or lo (hi * 256) == msg_id) then pure (some resp) else next

  -- recvfrom keeps the first `resp_sz` bytes of a datagram.
  unfoldable pub txn_loop : ℕ → ℕ → ℕ → ℕ → ℕ → Cmd (Option (List ℕ))
  unfolding check_reply
  txn_loop zero fd msg_id resp_sz timeout_ms = pure none
  txn_loop (suc tries) fd msg_id resp_sz timeout_ms = do
    ready ← ask (poll fd timeout_ms) K.poll
    if not ready then pure none else do
      received ← ask (recv_qmi fd resp_sz) K.recv_qmi
      let next = txn_loop tries fd msg_id resp_sz timeout_ms
      on_some received next λ datagram. check_reply msg_id next (take resp_sz datagram)

  -- The first `n` bytes of the reply, or -1.
  unfoldable pub qrtr_txn : ℕ → ℕ → ℕ → List ℕ → ℕ → ℕ → ℕ → Cmd (Option (List ℕ))
  qrtr_txn fd node port req msg_id resp_sz timeout_ms = do
    sent ← ask (sendto fd node port (qmi req)) K.sendto
    if not sent then pure none else txn_loop 32 fd msg_id resp_sz timeout_ms
