-- ===== src/Rudp/Protocol.antt =====
-- Sending and receiving: the end of src/rudp.c. A loop takes fuel, and `none` means
-- that it ran out, as a process that is still in the loop.
pub mod Waiting
pub mod Limits
pub mod Sending
pub mod Receiving
pub mod Unlimited
pub mod Exchange
pub mod Loss
pub mod Backlog
use psi_project.Base.{
  ℕ, zero, suc, ◌+◌, Bool, true, false, ◌&&◌, not, Option, none, some, List, [], ltb, leb, ◌==◌,
  if◌then◌else◌, length, get_elem?, set, drop, take, Rc, ok, err,
}
use psi_project.Rudp.Tables.{
  Addr, max_frame_size, frame_header_size, message, ack, ack_ack, frame_type, seq_bit, frame, flip,
  get_peer, pending_take_message_any, pending_drop_peer_frames,
}
use psi_project.Rudp.Wait.{got, timed_out, failed, store, send_ack_frame, wait_for_frame}
use psi_project.Rudp.Net.{Os, Net, datagram, would_block, recv_error, recvfrom, sendto, malloc}

abbrev pub max_transmission_attempts : ℕ
max_transmission_attempts = 3

-- TIMEOUT_USEC and ACK_TIMEOUT_USEC.
abbrev pub timeout_usec : ℕ
timeout_usec = 100000

-- `receive_message_frame` returns 0 with the sender and the frame, 1, or -1.
pub data Arrived : Type 0 where
  arrived : Addr → List ℕ → Arrived
  empty : Arrived
  broken : Arrived

-- `rudp_recvfrom` returns 0 with the buffer and the sender, 1, or -1.
pub data Delivered : Type 0 where
  delivered : Addr → List ℕ → Delivered
  nothing : Delivered
  fault : Delivered

-- The sequence bits of the peer at an index, and their change.
abbrev pub flip_send : ℕ → Net → Net
flip_send i n = elim (get_elem? n.peers i) [
  | none ↦ n
  | some p ↦ record n { peers = set n.peers i (record p { send_seq_bit = flip p.send_seq_bit }) }
]

abbrev pub flip_expected : ℕ → Net → Net
flip_expected i n = elim (get_elem? n.peers i) [
  | none ↦ n
  | some p ↦ record n {
    peers = set n.peers i (record p { expected_seq_bit = flip p.expected_seq_bit });
  }
]

abbrev pub send_bit : ℕ → Net → ℕ
send_bit i n = elim (get_elem? n.peers i) [ none ↦ 0 | some p ↦ p.send_seq_bit ]

abbrev pub expected_bit : ℕ → Net → ℕ
expected_bit i n = elim (get_elem? n.peers i) [ none ↦ 0 | some p ↦ p.expected_seq_bit ]

module _ (os : Os) where
  -- The loop of `rudp_sendto_with_limits` that resends until the ACK comes; `attempts` counts the
  -- timeouts, and a `max_attempts` of 0 sets no limit.
  unfoldable pub send_loop : ℕ → ℕ → Addr → List ℕ → ℕ → ℕ → ℕ → ℕ → Net → Option (Rc × Net)
  send_loop wait_fuel zero to bytes seq timeout max_attempts attempts n = none
  send_loop wait_fuel (suc fuel) to bytes seq timeout max_attempts attempts n =
      let (rc, n1) = sendto os n to bytes in
      elim rc [
        | err ↦ some (err, n1)
        | ok ↦ elim (wait_for_frame os wait_fuel to ack seq timeout n1) [
          | none ↦ none
          | some (failed, n2) ↦ some (err, n2)
          | some (got, n2) ↦ some (ok, n2)
          | some (timed_out, n2) ↦ elim (ltb 0 max_attempts && leb max_attempts (suc attempts)) [
            | true ↦ some (err, n2)
            | false ↦ send_loop wait_fuel fuel to bytes seq timeout max_attempts (suc attempts) n2
          ]
        ]
      ]

  -- The ACK_ACK is sent three times, with a pause after each.
  unfoldable pub ack_ack_rounds : ℕ → Addr → ℕ → Net → Rc × Net
  ack_ack_rounds zero to seq n = (ok, n)
  ack_ack_rounds (suc k) to seq n =
      let (rc, n1) = sendto os n to (frame ack_ack seq []) in
      let rest = ack_ack_rounds k to seq n1 in elim rc [ err ↦ (err, n1) | ok ↦ rest ]

  -- After the peer is found: drop old acknowledgements, send until acknowledged, confirm, flip.
  unfoldable pub send_to_peer : ℕ → ℕ → ℕ → List ℕ → Addr → ℕ → ℕ → Net → Option (Rc × Net)
  send_to_peer wait_fuel fuel i body to timeout max_attempts n =
      let seq = send_bit i n in
      let fs = pending_drop_peer_frames to ack_ack (pending_drop_peer_frames to ack n.pending) in
      let clean = record n { pending = fs } in
      elim (send_loop wait_fuel fuel to (frame message seq body) seq timeout max_attempts 0 clean) [
        | none ↦ none
        | some (err, n1) ↦ some (err, n1)
        | some (ok, n1) ↦
            let (rc, n2) = ack_ack_rounds max_transmission_attempts to seq n1 in
            elim rc [ err ↦ some (err, n2) | ok ↦ some (ok, flip_send i n2) ]
      ]

  -- `wait_fuel` is for each wait, `fuel` for the sends.
  unfoldable pub rudp_sendto_with_limits : ℕ → ℕ → List ℕ → Addr → ℕ → ℕ → Net → Option (Rc × Net)
  rudp_sendto_with_limits wait_fuel fuel body to ack_timeout_us max_attempts n =
      let (found, peers) = get_peer n.peers to true in
      let n1 = record n { peers = peers } in
      let (memory, n2) = malloc os n1 in
      let timeout = if ltb 0 ack_timeout_us then ack_timeout_us else timeout_usec in
      if ltb max_frame_size (frame_header_size + length body) then some (err, n) else elim found [
        | none ↦ some (err, n1)
        | some i ↦
            if not memory
            then some (err, n2)
            else send_to_peer wait_fuel fuel i body to timeout max_attempts n2
      ]

  unfoldable pub rudp_sendto : ℕ → ℕ → List ℕ → Addr → Net → Option (Rc × Net)
  rudp_sendto wait_fuel fuel body to n =
      rudp_sendto_with_limits wait_fuel fuel body to timeout_usec max_transmission_attempts n

  -- The loop of `receive_message_frame` over the datagrams at hand.
  unfoldable pub receive_loop : ℕ → Net → Option (Arrived × Net)
  receive_loop zero n = none
  receive_loop (suc fuel) n =
      let (got_one, n1) = recvfrom os n in
      elim got_one [
        | would_block ↦ some (empty, n1)
        | recv_error ↦ some (broken, n1)
        | datagram from bytes ↦ elim (ltb (length bytes) frame_header_size) [
          | true ↦ receive_loop fuel n1
          | false ↦ elim (frame_type bytes == message) [
            | true ↦ some (arrived from bytes, n1)
            | false ↦ receive_loop fuel (store from bytes n1).1
          ]
        ]
      ]

  unfoldable pub receive_message_frame : ℕ → Net → Option (Arrived × Net)
  receive_message_frame fuel n =
      let (taken, fs) = pending_take_message_any n.pending in
      elim taken [
        | some (from, bytes) ↦ some (arrived from bytes, record n { pending = fs })
        | none ↦ receive_loop fuel n
      ]

  -- The loop that sends the ACK until the ACK_ACK comes, at most `rounds` times.
  unfoldable pub ack_rounds : ℕ → ℕ → Addr → ℕ → Net → Option (Rc × Net)
  ack_rounds wait_fuel zero to seq n = some (ok, n)
  ack_rounds wait_fuel (suc rounds) to seq n =
      let (rc, n1) = send_ack_frame os to seq n in
      elim rc [
        | err ↦ some (err, n1)
        | ok ↦ elim (wait_for_frame os wait_fuel to ack_ack seq timeout_usec n1) [
          | none ↦ none
          | some (failed, n2) ↦ some (err, n2)
          | some (got, n2) ↦ some (ok, n2)
          | some (timed_out, n2) ↦ ack_rounds wait_fuel rounds to seq n2
        ]
      ]

  -- The loop of `rudp_recvfrom`. After a duplicate it takes one more frame, and drops it.
  unfoldable pub recv_loop : ℕ → ℕ → ℕ → Net → Option (Delivered × Net)
  recv_loop wait_fuel zero len n = none
  recv_loop wait_fuel (suc fuel) len n = elim (receive_message_frame wait_fuel n) [
    | none ↦ none
    | some (empty, n1) ↦ some (nothing, n1)
    | some (broken, n1) ↦ some (fault, n1)
    | some (arrived from bytes, n1) ↦
        let (found, peers) = get_peer n1.peers from true in
        let n2 = record n1 { peers = peers } in
        elim found [
          | none ↦ some (fault, n2)
          | some i ↦
              let expected = seq_bit bytes == expected_bit i n2 in
              elim (ack_rounds wait_fuel max_transmission_attempts from (seq_bit bytes) n2) [
                | none ↦ none
                | some (err, n3) ↦ some (fault, n3)
                | some (ok, n3) ↦ elim expected [
                  | true ↦
                      some (
                        delivered from (take len (drop frame_header_size bytes)),
                        flip_expected i n3,
                      )
                  | false ↦ elim (receive_message_frame wait_fuel n3) [
                    | none ↦ none
                    | some (arrived _ _, n4) ↦ recv_loop wait_fuel fuel len n4
                    | some (_, n4) ↦ some (nothing, n4)
                  ]
                ]
              ]
        ]
  ]

  unfoldable pub rudp_recvfrom : ℕ → ℕ → ℕ → Net → Option (Delivered × Net)
  rudp_recvfrom wait_fuel fuel len n =
      if ltb max_frame_size (frame_header_size + len)
      then some (fault, n)
      else recv_loop wait_fuel fuel len n
