-- ===== src/Link.antt =====
-- What the ring asks of the layers below it: unicast.c over rudp.c, the sockets, the clock and the
-- fifo. `World` is whatever state those keep; every call may change it.
use psi_project.Base.{ℕ, Bool, Option, List, Rc}
use psi_project.Node.{Route}
use psi_project.Wire.{UnicastMsg}

-- `unicast_recv` returns 0 with a message, more than 0 for nothing to read, or -1.
pub data Received : Type 0 where
  message : UnicastMsg → Received
  nothing : Received
  failed : Received

-- A datagram on the broadcast socket, cut to the buffer, with the sender's address; `none` for an
-- error of recvfrom.
abbrev pub Datagram : Type 0
Datagram = List ℕ × ℕ

-- `struct timeval`, and the answer of select: a set of ready descriptors (empty on a timeout), EINTR,
-- or another error.
pub record Timeout : Type 0 where
  pub sec : ℕ
  pub usec : ℕ

pub data Selected : Type 0 where
  ready : Bool → Bool → Bool → Selected
  interrupted : Selected
  broken : Selected

-- `time` is time (NULL); `send_limited` is unicast_send_limited; `broadcast` is send_to_all_targets
-- on the node's targets; `select` may change the timeout that it is given; `cli_read` is the read of the fifo: the bytes, or `none` for an error.
pub record Link (World : Type 0) : Type 0 where
  pub time : World → ℕ × World
  pub send_limited : World → UnicastMsg → Route → ℕ → ℕ → Rc × World
  pub recv : World → Received × World
  pub has_pending : World → Bool
  pub broadcast : World → List ℕ → Rc × World
  pub recv_broadcast : World → Option Datagram × World
  pub cli_read : World → Option (List ℕ) × World
  pub select : World → Timeout → Selected × Timeout × World
