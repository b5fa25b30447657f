-- ===== src/Rudp/Net.antt =====
-- The operating system as src/rudp.c meets it, and the state that the protocol works on. Every call
-- of the system takes the next number of `tick`, and the answer may be any function of that number
-- and the arguments.
use psi_project.Base.{ℕ, suc, Bool, List, ◌∷◌, Rc}
use psi_project.Rudp.Tables.{Addr, Peer, PendingFrame}

-- select on the one socket: -1, 0, or a positive result with the socket in the set or not.
pub data Selected : Type 0 where
  select_error : Selected
  select_timeout : Selected
  select_other : Selected
  select_ready : Selected

pub data Received : Type 0 where
  datagram : Addr → List ℕ → Received
  would_block : Received
  recv_error : Received

pub record Os : Type 0 where
  -- gettimeofday, in microseconds.
  pub clock : ℕ → ℕ
  pub select : ℕ → ℕ → Selected
  pub recv : ℕ → Received
  pub sendto : ℕ → Addr → List ℕ → Rc
  pub malloc : ℕ → Bool

-- `sent` is what was handed to sendto with success, the last first.
pub record Net : Type 0 where
  pub peers : List Peer
  pub pending : List PendingFrame
  pub tick : ℕ
  pub sent : List (Addr × List ℕ)

abbrev pub ticked : Net → Net
ticked n = record n { tick = suc n.tick }

module _ (os : Os) where
  unfoldable pub gettimeofday : Net → ℕ × Net
  gettimeofday n = (os.clock n.tick, ticked n)

  unfoldable pub select : Net → ℕ → Selected × Net
  select n timeout = (os.select n.tick timeout, ticked n)

  unfoldable pub recvfrom : Net → Received × Net
  recvfrom n = (os.recv n.tick, ticked n)

  unfoldable pub sendto : Net → Addr → List ℕ → Rc × Net
  sendto n to bytes = elim (os.sendto n.tick to bytes) [
    | Rc.ok ↦ (Rc.ok, record n { tick = suc n.tick; sent = (to, bytes) ∷ n.sent })
    | Rc.err ↦ (Rc.err, ticked n)
  ]

  unfoldable pub malloc : Net → Bool × Net
  malloc n = (os.malloc n.tick, ticked n)
