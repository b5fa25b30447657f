-- ===== src/Rudp/Exchanges.antt =====
-- One and two messages from a sender to a receiver of the reliable transport.
use psi_project.Base.{
  ℕ, ◌≡◌, ◌≢◌, ◌⊎◌, refl, ◌==◌, if◌then◌else◌, some, List, [], ◌∷◌, ok, err, arith, take,
}
use psi_project.Rudp.Tables.{
  Addr, message, ack, ack_ack, frame, frame_type, seq_bit, find_peer, get_peer, pending_take_frame,
  pending_take_message_any, pending_drop_peer_frames,
}
use psi_project.Rudp.Net.{
  Os, Net, Received, datagram, would_block, gettimeofday, select, recvfrom, sendto, malloc,
}
use psi_project.Rudp.Wait.{send_ack_frame, sort_frame, wait_loop, wait_for_frame}
use psi_project.Rudp.Protocol.{
  delivered, nothing, receive_loop, receive_message_frame, ack_rounds, rudp_recvfrom,
  rudp_sendto_with_limits, send_bit, expected_bit, send_loop, send_to_peer, ack_ack_rounds,
  recv_loop,
}
use psi_project.Rudp.Protocol.Exchange.{exchange_bits}
use psi_project.Rudp.Protocol.Loss.{failed_send_loses_next}
use psi_project.Rudp.Examples.{peer_addr, peer, net, silent, busy, at_tick}

-- A sender whose ACK comes at once, and a receiver to which two messages with bit 1 come.
abbrev answered : Os
answered = record busy { recv = λ t. datagram peer_addr (frame ack 1 []) }

abbrev two_messages : ℕ → Received
two_messages t =
    if t == 0
    then datagram peer_addr (frame message 1 (42 ∷ []))
    else if t == 6
    then datagram peer_addr (frame message 1 (43 ∷ []))
    else if t == 5
    then datagram peer_addr (frame ack_ack 1 [])
    else if t == 11
    then datagram peer_addr (frame ack_ack 1 [])
    else would_block

abbrev twice : Os
twice = record busy { recv = two_messages }

-- The sender after its send has succeeded, and after it has failed.
abbrev first_sent : List (Addr × List ℕ)
first_sent = (peer_addr, frame message 1 (42 ∷ [])) ∷ []

abbrev confirmed : Net
confirmed = record {
  peers = record (peer 0) { send_seq_bit = 0 } ∷ [];
  pending = [];
  tick = 9;
  sent =
      (peer_addr, frame ack_ack 1 [])
      ∷ (peer_addr, frame ack_ack 1 [])
      ∷ (peer_addr, frame ack_ack 1 [])
      ∷ first_sent;
}

abbrev gave_up : Net
gave_up = record {
  peers = peer 0 ∷ [];
  pending = [];
  tick = 13;
  sent =
      (peer_addr, frame message 1 (42 ∷ [])) ∷ (peer_addr, frame message 1 (42 ∷ [])) ∷ first_sent;
}

abbrev one_ack : List (Addr × List ℕ)
one_ack = (peer_addr, frame ack 1 []) ∷ []

abbrev two_acks : List (Addr × List ℕ)
two_acks = (peer_addr, frame ack 1 []) ∷ one_ack

-- The receiver once it has the first message, and after that.
abbrev taken : ℕ → List (Addr × List ℕ) → Net
taken t sent = at_tick t sent (net 0)

exchange_bits_example :
    (m' : Net) × (rudp_recvfrom twice 9 5 520 (net 1)
      ≡ some (delivered peer_addr (take 520 (42 ∷ [])), m'))
    × (((ok ≡ ok) × (expected_bit 0 m' ≡ send_bit 0 confirmed))
        ⊎ ((ok ≡ err) × (expected_bit 0 m' ≢ send_bit 0 confirmed)))
unfolding receive_message_frame receive_loop recvfrom pending_take_message_any get_peer find_peer
    ack_rounds send_ack_frame sendto frame frame_type seq_bit wait_for_frame wait_loop gettimeofday
    select pending_take_frame sort_frame malloc rudp_sendto_with_limits send_to_peer send_loop
    ack_ack_rounds pending_drop_peer_frames
exchange_bits_example =
    exchange_bits answered twice 9 4 (42 ∷ []) peer_addr peer_addr 4 3 520 0 0 (peer 0) (peer 1) ok
      (net 0) confirmed (net 1) (at_tick 1 [] (net 1)) (at_tick 6 one_ack (net 1)) refl refl
      (omega arith) refl (omega arith) refl refl refl refl refl

failed_send_loses_next_example :
    rudp_recvfrom twice 9 5 520 (taken 6 one_ack) ≡ some (nothing, taken 13 two_acks)
unfolding receive_message_frame receive_loop recvfrom pending_take_message_any get_peer find_peer
    ack_rounds send_ack_frame sendto frame frame_type seq_bit wait_for_frame wait_loop gettimeofday
    select pending_take_frame sort_frame malloc rudp_sendto_with_limits send_to_peer send_loop
    pending_drop_peer_frames rudp_recvfrom recv_loop
failed_send_loses_next_example =
    failed_send_loses_next silent twice 9 4 (42 ∷ []) (43 ∷ []) peer_addr peer_addr 4 3 520 0 0
      (peer 0) (peer 1) (net 0) gave_up (net 1) (at_tick 1 [] (net 1)) (at_tick 6 one_ack (net 1))
      (taken 6 one_ack) (taken 7 one_ack) (taken 12 two_acks) (taken 13 two_acks) refl refl
      (omega arith) refl (omega arith) refl refl refl refl refl refl refl refl refl refl
