-- ===== src/Rudp/Examples.antt =====
-- The theorems on the reliable transport at one peer and one sequence of answers of the system.
use psi_project.Base.{
  ℕ, suc, ◌+◌, ◌≡◌, ◌≢◌, refl, true, false, ◌==◌, if◌then◌else◌, none, some, List, [], ◌∷◌, ok,
  arith,
}
use psi_project.Rudp.Tables.{
  Addr, Peer, PendingFrame, message, ack, ack_ack, frame, frame_type, seq_bit, find_peer, get_peer,
  pending_take_frame, pending_take_message_any, pending_store_frame,
}
use psi_project.Rudp.Tables.Pending.{messages, store_overtakes}
use psi_project.Rudp.Net.{Os, Net, select_timeout, select_ready, Received, datagram, would_block}
use psi_project.Rudp.Wait.{wait_for_frame}
use psi_project.Rudp.Protocol.{nothing, rudp_recvfrom, rudp_sendto_with_limits}
use psi_project.Rudp.Protocol.Waiting.{wait_ends}
use psi_project.Rudp.Protocol.Backlog.{stored_message_lost}
use psi_project.Rudp.Protocol.Limits.{WaitsEnd, timeout_of, send_ends}
use psi_project.Rudp.Protocol.Sending.{SentPeers, send-SentPeers}
use psi_project.Rudp.Protocol.Unlimited.{Silent, unlimited_never_ends}

abbrev pub peer_addr : Addr
peer_addr = record { family = 2; port = 5002; ip = 16777343 }

abbrev pub peer : ℕ → Peer
peer expected = record {
  used = true;
  addr = peer_addr;
  send_seq_bit = 1;
  expected_seq_bit = expected;
}

abbrev pub net : ℕ → Net
net expected = record { peers = peer expected ∷ []; pending = []; tick = 0; sent = [] }

-- Each call takes two microseconds, and no datagram comes.
abbrev pub silent : Os
silent = record {
  clock = λ t. t + t;
  select = λ t timeout. select_timeout;
  recv = λ t. would_block;
  sendto = λ t to bytes. ok;
  malloc = λ t. true;
}

wait_ends_example : wait_for_frame silent 9 peer_addr ack 1 4 (net 0) ≢ none
wait_ends_example =
    wait_ends silent 9 2 peer_addr ack 1 4 (net 0) (λ t h k. (omega arith, omega arith))
      (omega arith) (omega arith) (omega arith)

silent-WaitsEnd : (seq : ℕ) → WaitsEnd silent 9 peer_addr seq (timeout_of 4)
silent-WaitsEnd seq n =
    wait_ends silent 9 (2 + n.tick) peer_addr ack seq (timeout_of 4) n
      (λ t h k. (omega arith, omega arith)) (omega arith) (omega arith) (omega arith)

send_ends_example : rudp_sendto_with_limits silent 9 4 (1 ∷ 2 ∷ []) peer_addr 4 3 (net 0) ≢ none
send_ends_example =
    send_ends silent 9 4 (1 ∷ 2 ∷ []) peer_addr 4 3 (net 0) silent-WaitsEnd (omega arith)
      (omega arith)

send-SentPeers_example :
    SentPeers
      (peer 0 ∷ [])
      peer_addr
      (rudp_sendto_with_limits silent 9 4 (1 ∷ 2 ∷ []) peer_addr 4 3 (net 0))
send-SentPeers_example = send-SentPeers silent 9 4 (1 ∷ 2 ∷ []) peer_addr 4 3 (net 0)

-- The peer's frame comes first, its ACK_ACK at the sixth call, another frame at the seventh.
abbrev first_frame : List ℕ
first_frame = frame message 0 (42 ∷ [])

abbrev second_frame : List ℕ
second_frame = frame message 1 (43 ∷ [])

abbrev arrivals : ℕ → Received
arrivals t =
    if t == 0
    then datagram peer_addr first_frame
    else if t == 5
    then datagram peer_addr (frame ack_ack 0 [])
    else if t == 6
    then datagram peer_addr second_frame
    else would_block

abbrev pub busy : Os
busy = record {
  clock = λ t. 0;
  select = λ t timeout. select_ready;
  recv = arrivals;
  sendto = λ t to bytes. ok;
  malloc = λ t. true;
}

abbrev pub at_tick : ℕ → List (Addr × List ℕ) → Net → Net
at_tick t sent n = record n { tick = t; sent = sent }

abbrev stored : List PendingFrame
stored = record { used = true; addr = peer_addr; bytes = first_frame } ∷ []

abbrev free_frame : PendingFrame
free_frame = record { used = false; addr = peer_addr; bytes = [] }

store_overtakes_example :
    (pending_take_message_any
      (pending_store_frame peer_addr second_frame (free_frame ∷ stored)).1).0
    ≡ some (peer_addr, second_frame)
unfolding frame frame_type
store_overtakes_example =
    store_overtakes peer_addr second_frame [] stored free_frame refl (omega arith) (omega arith) tt
      refl

silent-Silent : Silent silent
silent-Silent = record {
  nothing_comes = λ t u. refl;
  sends = λ t to bytes. refl;
  has_memory = λ t. refl;
}

unlimited_never_ends_example :
    rudp_sendto_with_limits silent (suc 8) 1000 (1 ∷ 2 ∷ []) peer_addr 4 0 (net 0) ≡ none
unfolding get_peer find_peer
unlimited_never_ends_example =
    unlimited_never_ends silent silent-Silent 8 1000 (1 ∷ 2 ∷ []) peer_addr 4 0 (net 0)
      (omega arith) refl

-- A message with the bit before the one that is expected, and a new one, both stored.
abbrev backlog : Net
backlog = record (net 1) {
  pending =
      record { used = true; addr = peer_addr; bytes = first_frame }
      ∷ record { used = true; addr = peer_addr; bytes = second_frame }
      ∷ [];
}

stored_message_lost_example :
    (n' : Net) × (rudp_recvfrom silent 2 (suc (suc 1)) 520 backlog ≡ some (nothing, n'))
    × (messages n'.pending ≡ 0)
unfolding frame frame_type seq_bit messages pending_take_message_any get_peer find_peer
    pending_take_frame
stored_message_lost_example =
    stored_message_lost silent silent-Silent (λ t. refl) 1 1 520 backlog peer_addr first_frame 0
      (peer 1) (omega arith) refl refl refl refl (omega arith) refl
