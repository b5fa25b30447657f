-- ===== src/Rudp/Protocol/Loss.antt =====
-- Two messages from a sender to a receiver of src/rudp.c, the first of them with a send that fails.
use psi_project.Base.{
  ℕ, zero, suc, ◌+◌, ◌<◌, ◌≤◌, ◌≡◌, ◌≢◌, inl, inr, refl, ap, ◌∙◌, true, Option, none, some, List,
  arith, ok, err, get_elem?, take, subst, ltb, length, ◌==◌, Bool-cases, Option-cases,
}
use psi_project.Rudp.Tables.{
  Addr, Peer, message, frame, frame_type, pending_take_message_any, get_peer, seq_bit,
  frame_header_size, max_frame_size,
}
use psi_project.Rudp.Tables.Peers.{get_peer_lem}
use psi_project.Rudp.Tables.Pending.{frame_fields}
use psi_project.Rudp.Net.{Os, Net, Received, datagram, would_block, recv_error, recvfrom}
use psi_project.Rudp.Wait.{store}
use psi_project.Rudp.Protocol.{
  send_bit, expected_bit, receive_loop, Arrived, arrived, empty, delivered, nothing,
  receive_message_frame, ack_rounds, recv_loop, rudp_recvfrom, rudp_sendto_with_limits,
}
use psi_project.Rudp.Protocol.Exchange.{exchange_bits}

-- Receiving a frame does not change the peer table.
abbrev ArrivedKept : List Peer → Option (Arrived × Net) → Type 0
ArrivedKept peers none = Unit
ArrivedKept peers (some (a, m)) = m.peers ≡ peers

module _ (receiver : Os) where
  receive_loop-ArrivedKept :
      (fuel : ℕ) (m : Net) → ArrivedKept m.peers (receive_loop receiver fuel m)
  unfolding receive_loop recvfrom
  receive_loop-ArrivedKept zero m = tt
  receive_loop-ArrivedKept (suc fuel) m =
      came (receiver.recv m.tick) refl (λ k. receive_loop-ArrivedKept fuel k)
    where
      came :
          (r : Received)
          → receiver.recv m.tick ≡ r
          → ((k : Net) → ArrivedKept k.peers (receive_loop receiver fuel k))
          → ArrivedKept m.peers (receive_loop receiver (suc fuel) m)
      came would_block e ih = rw (receive_loop, e) refl
      came recv_error e ih = rw (receive_loop, e) refl
      came (datagram from bytes) e ih =
          let m1 = (recvfrom receiver m).1 in
          elim (Bool-cases (ltb (length bytes) frame_header_size)) [
            | inl short ↦ rw (receive_loop, e, short) (ih m1)
            | inr long ↦ elim (Bool-cases (frame_type bytes == message)) [
              | inl here ↦ rw (receive_loop, e, long, here) refl
              | inr other ↦ rw (receive_loop, e, long, other) (ih (store from bytes m1).1)
            ]
          ]

  receive-ArrivedKept :
      (fuel : ℕ) (m : Net) → ArrivedKept m.peers (receive_message_frame receiver fuel m)
  unfolding receive_message_frame
  receive-ArrivedKept fuel m = elim (Option-cases (pending_take_message_any m.pending).0) [
    | inl e ↦ rw (receive_message_frame, e) (receive_loop-ArrivedKept fuel m)
    | inr ((from, bytes), e) ↦ rw (receive_message_frame, e) refl
  ]

  -- A frame with the other bit is not delivered.
  other_bit_ignored :
      (wait_fuel fuel len b j : ℕ) (body : List ℕ) (from : Addr) (q : Peer) (m m1 m3 m4 : Net)
      → frame_header_size + len ≤ max_frame_size
      → receive_message_frame receiver wait_fuel m ≡ some (arrived from (frame message b body), m1)
      → get_peer m1.peers from true ≡ (some j, m1.peers)
      → get_elem? m1.peers j ≡ some q
      → q.expected_seq_bit ≢ b
      → ack_rounds receiver wait_fuel 3 from b m1 ≡ some (ok, m3)
      → receive_message_frame receiver wait_fuel m3 ≡ some (empty, m4)
      → rudp_recvfrom receiver wait_fuel (suc fuel) len m ≡ some (nothing, m4)
  unfolding rudp_recvfrom recv_loop
  other_bit_ignored wait_fuel fuel len b j body from q m m1 m3 m4 fits arrives known at_q differs
        acked none_left =
      let read : seq_bit (frame message b body) ≡ b =
        (frame_fields message b body (omega arith)).1 in
      let acked' : ack_rounds receiver wait_fuel 3 from (seq_bit (frame message b body))
            (record m1 { peers = (get_peer m1.peers from true).1 })
          ≡ some (ok, m3) =
        rw (known, read) acked in
      ground (arith, read, acked')

kept_expected_bit :
    (m5 m' : Net) (j : ℕ) (q : Peer)
    → m5.peers ≡ m'.peers
    → get_elem? m5.peers j ≡ some q
    → expected_bit j m' ≡ q.expected_seq_bit
kept_expected_bit m5 m' j q kept at_ =
    let at' : get_elem? m'.peers j ≡ some q = rw kept at at_ in rw (expected_bit, at') refl

module _ (sender receiver : Os) (wait_fuel fuel : ℕ) where
  -- A message is lost after a send that was reported as failed: the receiver has delivered the first
  -- message, the sender sends the next one with the same bit, and the receiver acknowledges it and
  -- delivers nothing. The ends agreed on the bit before, both have entries for each other, the
  -- frames fit the buffer, the rounds of acknowledgement are over without an error, and no other
  -- frame arrives.
  pub failed_send_loses_next :
      (body next : List ℕ) (to from : Addr) (us max len i j : ℕ) (p q : Peer)
      (n n' m m1 m3 m' m5 m6 m7 : Net)
      → get_peer n.peers to true ≡ (some i, n.peers)
      → get_elem? n.peers i ≡ some p
      → p.send_seq_bit < 2
      → rudp_sendto_with_limits sender wait_fuel fuel body to us max n ≡ some (err, n')
      → frame_header_size + len ≤ max_frame_size
      → receive_message_frame receiver wait_fuel m
        ≡ some (arrived from (frame message p.send_seq_bit body), m1)
      → get_peer m1.peers from true ≡ (some j, m1.peers)
      → get_elem? m1.peers j ≡ some q
      → q.expected_seq_bit ≡ p.send_seq_bit
      → ack_rounds receiver wait_fuel 3 from p.send_seq_bit m1 ≡ some (ok, m3)
      → rudp_recvfrom receiver wait_fuel (suc fuel) len m
        ≡ some (delivered from (take len body), m')
      → receive_message_frame receiver wait_fuel m'
        ≡ some (arrived from (frame message (send_bit i n') next), m5)
      → get_peer m5.peers from true ≡ (some j, m5.peers)
      → ack_rounds receiver wait_fuel 3 from (send_bit i n') m5 ≡ some (ok, m6)
      → receive_message_frame receiver wait_fuel m6 ≡ some (empty, m7)
      → rudp_recvfrom receiver wait_fuel (suc fuel) len m' ≡ some (nothing, m7)
  failed_send_loses_next body next to from us max len i j p q n n' m m1 m3 m' m5 m6 m7 known at_ bit
        sent fits arrives known' at_q sync acked first again known5 acked5 none_left =
      let (m2, delivers, bits) =
        exchange_bits sender receiver wait_fuel fuel body to from us max len i j p q err n n' m m1
          m3 known at_ bit sent fits arrives known' at_q sync acked in
      let same : m2 ≡ m' = ground arith in
      let kept : m5.peers ≡ m'.peers =
        subst (ArrivedKept m'.peers) again (receive-ArrivedKept receiver wait_fuel m') in
      elim bits [
        | inl (no_success, b) ↦ absurd (ground arith)
        | inr (failure, differs) ↦
            let (q5, at5, used5, addr5) =
              get_peer_lem m5.peers from true {i = j} (rw known5 refl) in
            let reads : expected_bit j m' ≡ q5.expected_seq_bit =
              kept_expected_bit m5 m' j q5 kept (rw known5 at at5) in
            other_bit_ignored receiver wait_fuel fuel len (send_bit i n') j next from q5 m' m5 m6 m7
              fits again known5 (rw known5 at at5)
              (λ e. differs (ap (expected_bit j) same ∙ (reads ∙ e))) acked5 none_left
      ]
