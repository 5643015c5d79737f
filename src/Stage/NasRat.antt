-- ===== src/Stage/NasRat.antt =====
-- vendor-init/stage_nas_rat.c: LTE is preferred, registration is kicked, and the stage waits for LTE.
use postmarketos_x00td_cellu.Common.{leb, ◌-◌, ap}
use postmarketos_x00td_cellu.Host.{clock_gettime, History, World}
unfoldable use postmarketos_x00td_cellu.Host.{out_of_rounds}
use postmarketos_x00td_cellu.Host.Rules.{Settled, Settled-ask, Settled-if, Settled-bind}
use postmarketos_x00td_cellu.Qrtr.{qrtr_svc_nas}
use postmarketos_x00td_cellu.Request.Bytes.{
  set_sys_sel_pref_request_lem, initiate_register_request_lem, get_serving_system_request_lem,
}
use postmarketos_x00td_cellu.Request.Messages.{
  msg_nas_set_sys_sel_pref, msg_nas_initiate_nw_register, msg_nas_get_serving_system, radio_if_none,
  radio_if_lte, set_sys_sel_pref_request, initiate_register_request, get_serving_system_request,
}
use postmarketos_x00td_cellu.Stage.ServingSystem.{
  radio_if_name, show_s8, serving_radio, serving_radio_total,
}
use postmarketos_x00td_cellu.Stage.Kit.{
  ℕ, zero, suc, ◌+◌, ◌≤◌, ◌≡◌, refl, Bool, true, false, List, [], ◌∷◌, ◌++◌, length, ◌==◌, arith,
  codes, show_u, show_d, Ctx, StageFn, next_txid, Cmd, ◌>>◌, pure, lift, ask, emit, ◌>>=◌,
  if◌then◌else◌, on_some, Kernel, close, usleep, Brings, Quiet, Quiet-pure, Quiet-lift, Quiet-bind,
  Quiet-on_some, Brings-pure, Brings-if, then_quiet, then_open, then_close_last, qmi_result_total,
  qmi_result, qrtr_open, qrtr_lookup, qrtr_txn, qrtr_lookup-Quiet, qrtr_txn-Quiet, array,
  length-array, Closed, state_record, state_record-Quiet,
}

abbrev pub lte_wait_timeout_sec : ℕ
lte_wait_timeout_sec = 60

abbrev pub lte_poll_interval_us : ℕ
lte_poll_interval_us = 1000000

-- "%d (%s)"
unfoldable pub describe : ℕ → List ℕ
describe r = show_s8 r ++ (codes " (" ++ (radio_if_name r ++ codes ")"))

module _ ⦃K : Kernel⦄ where
  -- The outcome of the two requests is only logged; what is left is the transaction number.
  unfoldable pub issue_set_sys_sel_pref : ℕ → ℕ → ℕ → Cmd ℕ
  issue_set_sys_sel_pref fd nas_port txid = do
    req ← lift (set_sys_sel_pref_request (array 128) txid)
    reply ← qrtr_txn fd 0 nas_port req msg_nas_set_sys_sel_pref 256 5000
    on_some reply (pure (next_txid txid)) λ resp. do
      rc ← lift (qmi_result resp (length resp))
      state_record (codes "nas_set_pref_result") (show_d rc)
      pure (next_txid txid)

  unfoldable pub issue_initiate_register : ℕ → ℕ → ℕ → Cmd ℕ
  issue_initiate_register fd nas_port txid = do
    req ← lift (initiate_register_request (array 64) txid)
    reply ← qrtr_txn fd 0 nas_port req msg_nas_initiate_nw_register 256 5000
    on_some reply (pure (next_txid txid)) λ resp. do
      rc ← lift (qmi_result resp (length resp))
      state_record (codes "nas_register_result") (show_d rc)
      pure (next_txid txid)

  -- The radio interface; the transaction number goes up by one in every case.
  unfoldable pub poll_serving_system : ℕ → ℕ → ℕ → Cmd ℕ
  poll_serving_system fd nas_port txid = do
    req ← lift (get_serving_system_request (array 16) txid)
    reply ← qrtr_txn fd 0 nas_port req msg_nas_get_serving_system 1024 2000
    on_some reply (pure radio_if_none) λ resp. lift (serving_radio resp)

  -- A round that is in time; `next` is the next round, told the radio interface.
  unfoldable pub try_round : (ℕ → Cmd (Bool × ℕ)) → ℕ → ℕ → ℕ → Cmd (Bool × ℕ)
  unfolding poll_serving_system
  try_round next fd nas_port txid = do
    emit (usleep lte_poll_interval_us)
    r ← poll_serving_system fd nas_port txid
    if r == radio_if_lte then pure (true, r) else next r

  -- The loop that waits: whether LTE was seen, and the last radio interface.
  unfoldable pub wait_lte : ℕ → ℕ → ℕ → ℕ → ℕ → ℕ → Cmd (Bool × ℕ)
  unfolding try_round out_of_rounds
  wait_lte zero fd nas_port txid t0 last_rat = out_of_rounds
  wait_lte (suc rounds) fd nas_port txid t0 last_rat = do
    now ← ask clock_gettime K.seconds
    let next = wait_lte rounds fd nas_port (next_txid txid) t0
    if leb lte_wait_timeout_sec (now - t0)
        then pure (false, last_rat)
        else try_round next fd nas_port txid

  -- The wait of at most a minute.
  unfoldable pub wait_for_lte : ℕ → ℕ → ℕ → ℕ → Cmd (Bool × ℕ)
  unfolding wait_lte
  wait_for_lte fd nas_port txid last_rat = do
    t0 ← ask clock_gettime K.seconds
    wait_lte 61 fd nas_port txid t0 last_rat

  -- What follows the first look at the radio interface.
  unfoldable pub prefer_lte : ℕ → ℕ → ℕ → Ctx → Cmd (ℕ × Ctx)
  unfolding issue_set_sys_sel_pref issue_initiate_register wait_for_lte
  prefer_lte fd nas_port current_rat ctx = do
    txid ← issue_set_sys_sel_pref fd nas_port (next_txid 1)
    txid' ← issue_initiate_register fd nas_port txid
    (seen_lte, last_rat) ← wait_for_lte fd nas_port txid' current_rat
    state_record (codes "rat_after") (describe last_rat)
    emit (close fd)
    if seen_lte then pure (0, ctx) else pure (0, record ctx { simple_wds = true })

  unfoldable pub stage_nas_rat : StageFn
  unfolding prefer_lte
  stage_nas_rat ctx = if ctx.dry_run then pure (0, ctx) else do
    made ← qrtr_open
    on_some made (pure (1, ctx)) λ fd. do
      nas_port ← qrtr_lookup fd qrtr_svc_nas
      if nas_port == 0 then emit (close fd) >> pure (1, ctx) else do
        state_record (codes "nas_port") (show_u nas_port)
        current_rat ← poll_serving_system fd nas_port 1
        state_record (codes "rat_before") (describe current_rat)
        if current_rat == radio_if_lte
            then emit (close fd) >> pure (0, ctx)
            else prefer_lte fd nas_port current_rat ctx

-- The monotonic clock never goes back, and usleep(1000000) that no signal cuts short takes a second.
pub record Clock (K : Kernel) : Type 0 where
  pub forward :
      (older newer : History)
      → K.seconds (clock_gettime ∷ older)
        ≤ K.seconds (clock_gettime ∷ newer ++ clock_gettime ∷ older)
  pub sleeps :
      (older newer : History)
      → K.seconds (clock_gettime ∷ older) + 1
        ≤ K.seconds (clock_gettime ∷ newer ++ usleep lte_poll_interval_us ∷ clock_gettime ∷ older)

module _ ⦃K : Kernel⦄ where
  poll_serving_system-Quiet : (fd nas_port txid : ℕ) → Quiet (poll_serving_system fd nas_port txid)
  unfolding poll_serving_system
  poll_serving_system-Quiet fd nas_port txid =
      Quiet-bind _ _
        (Quiet-lift _ _
          (get_serving_system_request_lem (array 16) txid 16 (length-array 16) (omega arith)))
        λ req.
          Quiet-bind _ _ (qrtr_txn-Quiet fd 0 nas_port req msg_nas_get_serving_system 1024 2000)
            λ reply.
              Quiet-on_some _ _ _ (Quiet-pure radio_if_none)
                λ resp. let (r, e) = serving_radio_total resp in Quiet-lift _ r e

  issue_set_sys_sel_pref-Quiet :
      (fd nas_port txid : ℕ) → Quiet (issue_set_sys_sel_pref fd nas_port txid)
  unfolding issue_set_sys_sel_pref
  issue_set_sys_sel_pref-Quiet fd nas_port txid =
      Quiet-bind _ _
        (Quiet-lift _ _ (set_sys_sel_pref_request_lem (array 128) txid (length-array 128)))
        λ req.
          Quiet-bind _ _ (qrtr_txn-Quiet fd 0 nas_port req msg_nas_set_sys_sel_pref 256 5000)
            λ reply. Quiet-on_some _ _ _ (Quiet-pure _) λ resp.
              let (rc, e) = qmi_result_total resp in
              Quiet-bind _ _ (Quiet-lift _ rc e)
                λ _. Quiet-bind _ _ (state_record-Quiet _ _) λ _. Quiet-pure _

  issue_initiate_register-Quiet :
      (fd nas_port txid : ℕ) → Quiet (issue_initiate_register fd nas_port txid)
  unfolding issue_initiate_register
  issue_initiate_register-Quiet fd nas_port txid =
      Quiet-bind _ _
        (Quiet-lift _ _ (initiate_register_request_lem (array 64) txid (length-array 64)))
        λ req.
          Quiet-bind _ _ (qrtr_txn-Quiet fd 0 nas_port req msg_nas_initiate_nw_register 256 5000)
            λ reply. Quiet-on_some _ _ _ (Quiet-pure _) λ resp.
              let (rc, e) = qmi_result_total resp in
              Quiet-bind _ _ (Quiet-lift _ rc e)
                λ _. Quiet-bind _ _ (state_record-Quiet _ _) λ _. Quiet-pure _

  -- The round that follows: the bound on the clock is one second nearer.
  Clock-bound :
      (C : Clock K) (t0 left : ℕ) (older newer h : History)
      → t0 + 60 ≤ K.seconds (clock_gettime ∷ older) + suc left
      → h ≡ newer ++ usleep lte_poll_interval_us ∷ clock_gettime ∷ older
      → t0 + 60 ≤ K.seconds (clock_gettime ∷ h) + left
  Clock-bound C t0 left older newer h b e =
      let same = ap (λ g. K.seconds (clock_gettime ∷ g)) e in
      omega (arith, C.sleeps older newer, same)

  try_round-Settled :
      (next : ℕ → Cmd (Bool × ℕ)) (fd nas_port txid : ℕ) (w : World)
      → ((r : ℕ) (v : World) (newer : History)
          → v.history ≡ newer ++ usleep lte_poll_interval_us ∷ w.history
          → Settled v (next r v))
      → Settled w (try_round next fd nas_port txid w)
  unfolding try_round ◌>>=◌ emit
  try_round-Settled next fd nas_port txid w k =
      let v0 : World = record w { history = usleep lte_poll_interval_us ∷ w.history } in
      let f : ℕ → Cmd (Bool × ℕ) =
        λ r. if r == radio_if_lte then pure {A = Bool × ℕ} (true, r) else next r in
      Settled-ask {B = Bool × ℕ} (usleep lte_poll_interval_us) (λ _. tt)
        (λ _. poll_serving_system fd nas_port txid >>= f) w tt
        (Settled-bind v0 (poll_serving_system fd nas_port txid v0) f
          ((poll_serving_system-Quiet fd nas_port txid).at v0)
          λ r v newer e.
            Settled-if (r == radio_if_lte) (pure {A = Bool × ℕ} (true, r)) (next r) v
              (λ _. (Quiet-pure {A = Bool × ℕ} (true, r)).at v) λ _. k r v newer e)

  wait_lte-Settled :
      (C : Clock K) (left fd nas_port txid t0 last_rat : ℕ) (w : World)
      → t0 + 60 ≤ K.seconds (clock_gettime ∷ w.history) + left
      → Settled w (wait_lte (suc left) fd nas_port txid t0 last_rat w)
  unfolding wait_lte
  wait_lte-Settled C zero fd nas_port txid t0 last_rat w b =
      Settled-ask clock_gettime K.seconds _ w tt (
        Settled-if (leb 60 (K.seconds (clock_gettime ∷ w.history) - t0))
          (pure {A = Bool × ℕ} (false, last_rat)) _ _
          (λ _. (Quiet-pure {A = Bool × ℕ} (false, last_rat)).at _)
          λ early. absurd (ground (arith, early)))
  wait_lte-Settled C (suc left) fd nas_port txid t0 last_rat w b =
      Settled-ask clock_gettime K.seconds _ w tt (
        Settled-if (leb 60 (K.seconds (clock_gettime ∷ w.history) - t0))
          (pure {A = Bool × ℕ} (false, last_rat)) _ _
          (λ _. (Quiet-pure {A = Bool × ℕ} (false, last_rat)).at _)
          λ _.
            try_round-Settled (wait_lte (suc left) fd nas_port (next_txid txid) t0) fd nas_port txid
              _
              λ r v newer e.
                wait_lte-Settled C left fd nas_port (next_txid txid) t0 r v
                  (Clock-bound C t0 left w.history newer v.history b e))

  -- If the clock goes on and no nap is cut short, the wait ends, whatever the modem answers: 61 rounds
  -- are enough. None of its calls opens or closes a socket, and what was open before is open after it.
  pub wait_for_lte-Quiet :
      (C : Clock K) (fd nas_port txid last_rat : ℕ) → Quiet (wait_for_lte fd nas_port txid last_rat)
  unfolding wait_for_lte
  wait_for_lte-Quiet C fd nas_port txid last_rat = record {
    at = λ w. Settled-ask clock_gettime K.seconds _ w tt (
        wait_lte-Settled C 60 fd nas_port txid (K.seconds (clock_gettime ∷ w.history)) last_rat _
          (omega (arith, C.forward w.history [])));
  }

  prefer_lte-Closed :
      (C : Clock K) (fd nas_port current_rat : ℕ) (ctx : Ctx) (fds : List ℕ)
      → Brings (fd ∷ fds) (prefer_lte fd nas_port current_rat ctx) (Closed ctx fds)
  unfolding prefer_lte
  prefer_lte-Closed C fd nas_port current_rat ctx fds =
      then_quiet _ _ (issue_set_sys_sel_pref-Quiet fd nas_port (next_txid 1)) λ txid.
        then_quiet _ _ (issue_initiate_register-Quiet fd nas_port txid) λ txid'.
          then_quiet _ _ (wait_for_lte-Quiet C fd nas_port txid' current_rat)
            λ (seen_lte, last_rat). then_quiet _ _ (state_record-Quiet _ _) λ _.
              then_close_last _ _ (
                Brings-if _ _ _ (λ _. Brings-pure _ (refl, refl, refl, omega arith))
                  λ _. Brings-pure _ (refl, refl, refl, omega arith))

  -- If the clock goes on and no nap is cut short, then whatever the kernel and the modem answer, the
  -- stage returns without a fault; the descriptors that are open then are those that were open before, and the context
  -- keeps its bearer socket and its APN; the exit code is at most 3.
  pub stage_nas_rat-Closed :
      (C : Clock K) (ctx : Ctx) (fds : List ℕ) → Brings fds (stage_nas_rat ctx) (Closed ctx fds)
  unfolding stage_nas_rat qrtr_open
  stage_nas_rat-Closed C ctx fds =
      Brings-if _ _ _ (λ _. Brings-pure _ (refl, refl, refl, omega arith))
        λ _. then_open _ _ (Brings-pure _ (refl, refl, refl, omega arith)) λ fd.
          then_quiet _ _ (qrtr_lookup-Quiet fd qrtr_svc_nas) λ nas_port.
            Brings-if _ _ _
              (λ _. then_close_last _ _ (Brings-pure _ (refl, refl, refl, omega arith)))
              λ _. then_quiet _ _ (state_record-Quiet _ _) λ _.
                then_quiet _ _ (poll_serving_system-Quiet fd nas_port 1) λ current_rat.
                  then_quiet _ _ (state_record-Quiet _ _) λ _.
                    Brings-if _ _ _
                      (λ _. then_close_last _ _ (Brings-pure _ (refl, refl, refl, omega arith)))
                      λ _. prefer_lte-Closed C fd nas_port current_rat ctx fds
