-- ===== src/Unicast/Examples.antt =====
-- The theorems on unicast messages at one short message.
use psi_project.Base.{
  true, ℕ, ◌+◌, ◌<◌, ◌≡◌, ◌⊎◌, refl, arith, none, some, List, [], ◌∷◌, length, take, drop,
  replicate, ok,
}
use psi_project.Wire.{UnicastMsg}
use psi_project.Link.{message}
use psi_project.Rudp.Tables.{Addr, frame, frame_header_size, ack}
use psi_project.Rudp.Net.{Os, Net, select_timeout, would_block}
use psi_project.Rudp.Protocol.Waiting.{wait_ends}
use psi_project.Rudp.Protocol.Limits.{WaitsEnd, timeout_of}
use psi_project.Unicast.{Names, pton_no_address, wire_size, build_unicast_wire, read_wire}
use psi_project.Unicast.Laws.{FitsMsg, carried, read-build}

abbrev msg : UnicastMsg
msg = record { type = 7; payload_len = 2; payload = 5 ∷ 6 ∷ replicate 510 0 }

abbrev blank : UnicastMsg
blank = record { type = 0; payload_len = 0; payload = replicate 512 0 }

msg-FitsMsg : FitsMsg msg
msg-FitsMsg = record { type = omega arith; payload_len = omega arith; payload = refl }

read-build_example :
    ((512 < msg.payload_len) × (build_unicast_wire msg ≡ none))
    ⊎ ((wire : List ℕ) × (build_unicast_wire msg ≡ some wire)
        × (length wire ≡ wire_size)
        × (read_wire [] blank (take wire_size (drop frame_header_size (frame 0 1 wire)))
            ≡ message (carried msg blank)))
read-build_example = read-build [] msg blank 1 msg-FitsMsg

-- Each call of the system takes two microseconds, and no datagram comes.
abbrev silent : Os
silent = record {
  clock = λ t. t + t;
  select = λ t timeout. select_timeout;
  recv = λ t. would_block;
  sendto = λ t to bytes. ok;
  malloc = λ t. true;
}

abbrev names : Names
names = record { inet_pton = λ n. pton_no_address; getaddrinfo = λ n. some 16777343 }

abbrev net : Net
net = record { peers = []; pending = []; tick = 0; sent = [] }

silent-WaitsEnd : (to : Addr) (seq : ℕ) → WaitsEnd silent 9 to seq (timeout_of 4)
silent-WaitsEnd to seq n =
    wait_ends silent 9 (2 + n.tick) to ack seq (timeout_of 4) n
      (λ t h k. (omega arith, omega arith)) (omega arith) (omega arith) (omega arith)
