-- ===== src/Host.antt =====
-- The kernel and the modem as vendor-init sees them: its system calls are events, and each answer
-- is a function of the history of events, the call itself included. That function is a parameter.
pub mod Rules
pub mod Traces
use postmarketos_x00td_cellu.Common.{ℕ, Bool, true, false, Option, none, some, List, [], ◌∷◌, ◌==◌}
use mathlib.Core.Bool.{cond}

-- `struct qrtr_ctrl_pkt` of <linux/qrtr.h>, with the fields that the program uses; `version` is its
-- field `instance`.
pub record CtrlPkt : Type 0 where
  pub cmd : ℕ
  pub service : ℕ
  pub version : ℕ
  pub node : ℕ
  pub port : ℕ

pub data Packet : Type 0 where
  ctrl : CtrlPkt → Packet
  qmi : List ℕ → Packet

-- System calls, with the arguments that matter. Paths, commands and file contents are bytes.
pub data Event : Type 0 where
  socket : Event
  close : ℕ → Event
  sendto : ℕ → ℕ → ℕ → Packet → Event
  poll : ℕ → ℕ → Event
  recv_ctrl : ℕ → Event
  recv_qmi : ℕ → ℕ → Event
  mkdir : List ℕ → Event
  fopen : List ℕ → Event
  fputs : List ℕ → List ℕ → Event
  system : List ℕ → Event
  usleep : ℕ → Event
  clock_gettime : Event
  pause : Event

-- The newest event stands first.
abbrev pub History : Type 0
History = List Event

-- `socket`: the descriptor, unless it fails. `sendto`: it succeeded. `poll`: it returned more than
-- 0. `recv_ctrl`, `recv_qmi`: the datagram, unless the call failed or, for a control packet, was
-- short. `fopen`: it succeeded. `system`: the status. `seconds`: tv_sec of the monotonic clock.
-- `stopped`: a signal has arrived.
pub record Kernel : Type 0 where
  pub socket : History → Option ℕ
  pub sendto : History → Bool
  pub poll : History → Bool
  pub recv_ctrl : History → Option CtrlPkt
  pub recv_qmi : History → Option (List ℕ)
  pub fopen : History → Bool
  pub system : History → ℕ
  pub seconds : History → ℕ
  pub stopped : History → Bool

-- The history, and the static variable of state.c.
pub record World : Type 0 where
  pub history : History
  pub dir_ensured : Bool

-- `fault` is what C leaves undefined: an access outside an array. `stuck` is no outcome of the
-- program: a loop that the clock ends ran out of the rounds that the model gives it.
pub data Run (A : Type 0) : Type 0 where
  ok : A → World → Run A
  fault : Run A
  stuck : Run A

abbrev pub Cmd : Type 0 → Type 0
Cmd A = World → Run A

module _ {A : Type 0} where
  unfoldable pub pure : A → Cmd A
  pure a w = ok a w

  -- A computation on arrays.
  unfoldable pub lift : Option A → Cmd A
  lift none w = fault
  lift (some a) w = ok a w

  -- The rounds of a loop are used up.
  unfoldable pub out_of_rounds : Cmd A
  out_of_rounds w = stuck

  -- What the history says, without a call: a variable that a signal handler sets.
  unfoldable pub look : (History → A) → Cmd A
  look answer w = ok (answer w.history) w

  -- A call, and what the kernel answers to it.
  unfoldable pub ask : Event → (History → A) → Cmd A
  ask e answer w = ok (answer (e ∷ w.history)) (record w { history = e ∷ w.history })

module _ {A : Type 0} where
  infix 1 if◌then◌else◌
  -- The conditional on commands.
  unfoldable pub if◌then◌else◌ : Bool → Cmd A → Cmd A → Cmd A
  if true then m else n = m
  if false then m else n = n

module _ {A B : Type 0} where
  abbrev pub and_then : Run A → (A → Cmd B) → Run B
  and_then (ok a w) f = f a w
  and_then fault f = fault
  and_then stuck f = stuck

  infixl 5 ◌>>=◌ ◌>>◌
  -- Opening this opens `pure`, `lift`, `ask` and the conditional too.
  unfoldable pub ◌>>=◌ : Cmd A → (A → Cmd B) → Cmd B
  unfolding pure lift ask if◌then◌else◌
  ◌>>=◌ m f w = and_then (m w) f

  abbrev pub ◌>>◌ : Cmd A → Cmd B → Cmd B
  m >> n = m >>= λ _. n

  -- The test `if (!x)` on a value that may be missing.
  unfoldable pub on_some : Option A → Cmd B → (A → Cmd B) → Cmd B
  on_some none m f = m
  on_some (some a) m f = f a

-- A call whose answer the program ignores.
unfoldable pub emit : Event → Cmd (Unit {0})
unfolding ask
emit e = ask e (λ _. tt)

-- close(fd) takes one descriptor out of the table.
abbrev pub erase : ℕ → List ℕ → List ℕ
erase fd [] = []
erase fd (x ∷ xs) = cond (x == fd) xs (x ∷ erase fd xs)

module _ ⦃K : Kernel⦄ where
  abbrev pub opened : Option ℕ → List ℕ → List ℕ
  opened none fds = fds
  opened (some fd) fds = fd ∷ fds

  -- The descriptors that a history leaves open.
  pub open_fds : History → List ℕ
  open_fds [] = []
  open_fds (socket ∷ h) = opened (K.socket (socket ∷ h)) (open_fds h)
  open_fds (close fd ∷ h) = erase fd (open_fds h)
  open_fds (_ ∷ h) = open_fds h
