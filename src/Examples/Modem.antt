-- ===== src/Examples/Modem.antt =====
-- A kernel and a modem in which every call succeeds: each service is at port 5, each request is
-- answered with success, GET_SERVING_SYSTEM with a tracking area code too. The clock counts naps.
use postmarketos_x00td_cellu.Common.{
  ℕ, suc, ◌≤◌, refl, Bool, true, false, Option, none, some, List, [], ◌∷◌, ◌++◌, ◌==◌,
  if◌then◌else◌, arith,
}
use postmarketos_x00td_cellu.Host.{
  CtrlPkt, ctrl, qmi, Event, sendto, pause, usleep, clock_gettime, History, Kernel, World,
}
use postmarketos_x00td_cellu.Stage.NasRat.{Clock, lte_poll_interval_us}
use postmarketos_x00td_cellu.Main.Close.{Signals}

abbrev pub naps : History → ℕ
naps [] = 0
naps (usleep us ∷ h) = suc (naps h)
naps (_ ∷ h) = naps h

abbrev announced : History → Option CtrlPkt
announced [] = none
announced (sendto fd node port (ctrl c) ∷ h) =
    some (record { cmd = 4; service = c.service; version = 0; node = 0; port = 5 })
announced (_ ∷ h) = announced h

abbrev success : List ℕ
success = 0x02 ∷ 4 ∷ 0 ∷ 0 ∷ 0 ∷ 0 ∷ 0 ∷ []

abbrev answer : List ℕ → Option (List ℕ)
answer (ctl ∷ t0 ∷ t1 ∷ m0 ∷ m1 ∷ body) =
    if m0 == 0x24
    then some (2 ∷ t0 ∷ t1 ∷ m0 ∷ m1 ∷ 12 ∷ 0 ∷ success ++ 0x15 ∷ 2 ∷ 0 ∷ 1 ∷ 2 ∷ [])
    else some (2 ∷ t0 ∷ t1 ∷ m0 ∷ m1 ∷ 7 ∷ 0 ∷ success)
answer _ = none

abbrev answered : History → Option (List ℕ)
answered [] = none
answered (sendto fd node port (qmi req) ∷ h) = answer req
answered (_ ∷ h) = answered h

abbrev after_pause : History → Bool
after_pause (pause ∷ h) = true
after_pause _ = false

abbrev pub modem : Kernel
modem = record {
  socket = λ h. some 7;
  sendto = λ h. true;
  poll = λ h. true;
  recv_ctrl = announced;
  recv_qmi = answered;
  fopen = λ h. true;
  system = λ h. 0;
  seconds = naps;
  stopped = after_pause;
}

abbrev pub start : World
start = record { history = []; dir_ensured = false }

naps-append : (newer older : History) → naps older ≤ naps (newer ++ older)
naps-append [] older = omega arith
naps-append (usleep us ∷ newer) older = omega (arith, naps-append newer older)
naps-append (Event.socket ∷ newer) older = naps-append newer older
naps-append (Event.close fd ∷ newer) older = naps-append newer older
naps-append (Event.sendto fd node port packet ∷ newer) older = naps-append newer older
naps-append (Event.poll fd ms ∷ newer) older = naps-append newer older
naps-append (Event.recv_ctrl fd ∷ newer) older = naps-append newer older
naps-append (Event.recv_qmi fd n ∷ newer) older = naps-append newer older
naps-append (Event.mkdir path ∷ newer) older = naps-append newer older
naps-append (Event.fopen path ∷ newer) older = naps-append newer older
naps-append (Event.fputs path text ∷ newer) older = naps-append newer older
naps-append (Event.system cmd ∷ newer) older = naps-append newer older
naps-append (clock_gettime ∷ newer) older = naps-append newer older
naps-append (pause ∷ newer) older = naps-append newer older

pub modem-Clock : Clock modem
modem-Clock = record {
  forward = λ older newer. naps-append newer (clock_gettime ∷ older);
  sleeps = λ older newer.
      omega (arith, naps-append newer (usleep lte_poll_interval_us ∷ clock_gettime ∷ older));
}

pub modem-Signals : Signals modem
modem-Signals = record { pause_stopped = λ h. refl }
