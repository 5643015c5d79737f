-- ===== src/Qrtr/Lookup.antt =====
-- vendor-init/qrtr.c: the lookup of a service, datagram by datagram.
use postmarketos_x00td_cellu.Common.{
  ℕ, zero, suc, ◌+◌, ◌*◌, ◌≤◌, ◌≡◌, refl, ◌⊎◌, inl, inr, Bool-cases, Option-cases, some, ◌∷◌,
  length, arith,
}
use postmarketos_x00td_cellu.Host.{
  CtrlPkt, ctrl, sendto, poll, recv_ctrl, History, Kernel, World, Run, ok, fault, stuck, ask, ◌>>=◌,
  on_some,
}
use postmarketos_x00td_cellu.Host.Rules.{
  Quiet, Quiet-pure, Quiet-ask, Quiet-if, Quiet-bind, Quiet-on_some,
}
use postmarketos_x00td_cellu.Qrtr.{
  qrtr_type_new_server, qrtr_port_ctrl, lookup_request, is_answer, lookup_loop, qrtr_lookup,
}

module _ ⦃K : Kernel⦄ where
  -- The kernel delivered a NEW_SERVER packet of the service with this port.
  pub record Announced (service port : ℕ) : Type 0 where
    pub when : History
    pub pkt : CtrlPkt
    pub received : K.recv_ctrl when ≡ some pkt
    pub kind : pkt.cmd ≡ qrtr_type_new_server
    pub of : pkt.service ≡ service
    pub at : pkt.port ≡ port

  abbrev pub FoundWithin : ℕ → ℕ → World → Run ℕ → Type 0
  FoundWithin service calls w (ok port w') =
      ((port ≡ 0) ⊎ Announced service port) × (length w'.history ≤ length w.history + calls)
  FoundWithin service calls w _ = ⊥

  FoundWithin-later :
      (service calls total : ℕ) (w v : World) (r : Run ℕ)
      → length v.history + calls ≤ length w.history + total
      → FoundWithin service calls v r
      → FoundWithin service total w r
  FoundWithin-later service calls total w v (ok r w') h (a, n) = (a, omega arith)
  FoundWithin-later service calls total w v fault h a = a
  FoundWithin-later service calls total w v stuck h a = a

  lookup_loop-FoundWithin :
      (rounds fd service : ℕ) (w : World)
      → FoundWithin service (2 * rounds) w (lookup_loop rounds fd service w)
  unfolding lookup_loop ◌>>=◌ on_some
  lookup_loop-FoundWithin zero fd service w = (inl refl, omega arith)
  lookup_loop-FoundWithin (suc rounds) fd service w =
      let w1 : World = record w { history = poll fd 500 ∷ w.history } in
      let w2 : World = record w1 { history = recv_ctrl fd ∷ w1.history } in
      let ih =
        FoundWithin-later service (2 * rounds) (2 * suc rounds) w w2
          (lookup_loop rounds fd service w2) (omega arith)
          (lookup_loop-FoundWithin rounds fd service w2) in
      elim (Bool-cases (K.poll w1.history)) [
        | inl ready ↦ elim (Option-cases (K.recv_ctrl w2.history)) [
          | inl failed ↦ rw (ready, failed) ih
          | inr (pkt, got) ↦ elim (Bool-cases (is_answer service pkt)) [
            | inl hit ↦
                rw (ready, got, hit)
                  (
                    inr (record {
                      when = w2.history;
                      pkt = pkt;
                      received = got;
                      kind = ground arith;
                      of = ground arith;
                      at = refl;
                    }),
                    omega arith,
                  )
            | inr miss ↦ rw (ready, got, miss) ih
          ]
        ]
        | inr timeout ↦ rw timeout (inl refl, omega arith)
      ]

  -- A lookup returns within 129 system calls, never with a fault; what it returns is 0 or the port
  -- of a NEW_SERVER packet that the kernel delivered for the service.
  pub qrtr_lookup-FoundWithin :
      (fd service : ℕ) (w : World) → FoundWithin service 129 w (qrtr_lookup fd service w)
  unfolding qrtr_lookup ◌>>=◌
  qrtr_lookup-FoundWithin fd service w =
      let w1 : World = record w {
        history = sendto fd 1 qrtr_port_ctrl (ctrl (lookup_request service)) ∷ w.history;
      } in
      elim (Bool-cases (K.sendto w1.history)) [
        | inl sent ↦ rw sent (
            FoundWithin-later service 128 129 w w1 (lookup_loop 64 fd service w1) (omega arith)
              (lookup_loop-FoundWithin 64 fd service w1))
        | inr failed ↦ rw failed (inl refl, omega arith)
      ]

  lookup_loop-Quiet : (rounds fd service : ℕ) → Quiet (lookup_loop rounds fd service)
  unfolding lookup_loop
  lookup_loop-Quiet zero fd service = Quiet-pure 0
  lookup_loop-Quiet (suc rounds) fd service =
      let ih = lookup_loop-Quiet rounds fd service in
      Quiet-bind (ask (poll fd 500) K.poll) _ (Quiet-ask _ _ tt) λ ready.
        Quiet-if _ _ _ (Quiet-pure 0) (
          Quiet-bind (ask (recv_ctrl fd) K.recv_ctrl) _ (Quiet-ask _ _ tt) λ received.
            Quiet-on_some received _ _ ih (λ pkt. Quiet-if _ _ _ (Quiet-pure pkt.port) ih))

  pub qrtr_lookup-Quiet : (fd service : ℕ) → Quiet (qrtr_lookup fd service)
  unfolding qrtr_lookup
  qrtr_lookup-Quiet fd service =
      Quiet-bind (ask (sendto fd 1 qrtr_port_ctrl (ctrl (lookup_request service))) K.sendto) _
        (Quiet-ask _ _ tt) λ sent. Quiet-if _ _ _ (Quiet-pure 0) (lookup_loop-Quiet 64 fd service)
