-- ===== src/Rudp/Protocol/Backlog.antt =====
-- Messages that are stored while `rudp_recvfrom` of src/rudp.c takes a duplicate.
use psi_project.Base.{
  ℕ, zero, suc, ◌+◌, ◌≤◌, ◌≡◌, ◌≢◌, ◌∙◌, ap, inl, inr, refl, true, false, none, some, List, [], ◌∷◌,
  ok, arith, get_elem?,
}
use psi_project.Rudp.Tables.{
  Addr, Peer, PendingFrame, ack, ack_ack, frame, seq_bit, get_peer, pending_take_frame,
  pending_take_message_any, max_frame_size, frame_header_size,
}
use psi_project.Rudp.Tables.Pending.{messages, has_pending_take, has_pending-messages}
use psi_project.Rudp.Net.{Os, Net, would_block, recvfrom, sendto, ticked}
use psi_project.Rudp.Wait.{send_ack_frame}
use psi_project.Rudp.Protocol.{
  timeout_usec, arrived, empty, nothing, receive_loop, receive_message_frame, ack_rounds, recv_loop,
  rudp_recvfrom,
}
use psi_project.Rudp.Protocol.Unlimited.{Silent, wait_times_out}

-- Taking a MESSAGE does not bring in an ACK_ACK.
take_message-ack_ack :
    (to : Addr) (seq : ℕ) (fs : List PendingFrame)
    → (pending_take_frame to ack_ack seq fs).0 ≡ false
    → (pending_take_frame to ack_ack seq (pending_take_message_any fs).1).0 ≡ false
unfolding pending_take_frame pending_take_message_any
take_message-ack_ack to seq [] h = refl
take_message-ack_ack to seq (f ∷ fs) h = ground (arith, take_message-ack_ack to seq fs)

module _ (os : Os) (silent : Silent os) (mute : (t : ℕ) → os.recv t ≡ would_block) where
  ack_rounds_time_out :
      (wait_fuel rounds : ℕ) (to : Addr) (seq : ℕ) (n : Net)
      → (pending_take_frame to ack_ack seq n.pending).0 ≡ false
      → (n' : Net) × (ack_rounds os (suc wait_fuel) rounds to seq n ≡ some (ok, n'))
        × (n'.pending ≡ n.pending)
        × (n'.peers ≡ n.peers)
  unfolding ack_rounds send_ack_frame sendto
  ack_rounds_time_out wait_fuel zero to seq n q = (n, refl, refl, refl)
  ack_rounds_time_out wait_fuel (suc rounds) to seq n q =
      let n1 = (send_ack_frame os to seq n).1 in
      let went = silent.sends n.tick to (frame ack seq []) in
      let sent : (send_ack_frame os to seq n).0 ≡ ok = ground arith in
      let same : (n1.pending ≡ n.pending) × (n1.peers ≡ n.peers) = ground arith in
      let q1 : (pending_take_frame to ack_ack seq n1.pending).0 ≡ false = rw same.0 q in
      let (n2, e, pending, peers) =
        wait_times_out os silent wait_fuel to ack_ack seq timeout_usec n1 q1 in
      let q2 : (pending_take_frame to ack_ack seq n2.pending).0 ≡ false = rw pending q1 in
      let (n3, e3, pending3, peers3) = ack_rounds_time_out wait_fuel rounds to seq n2 q2 in
      (n3, rw (ack_rounds, sent, e) e3, pending3 ∙ (pending ∙ same.0), peers3 ∙ (peers ∙ same.1))

  receive_stored :
      (wait_fuel : ℕ) (n : Net) {from : Addr} {bytes : List ℕ}
      → (pending_take_message_any n.pending).0 ≡ some (from, bytes)
      → receive_message_frame os wait_fuel n
        ≡ some (arrived from bytes, record n { pending = (pending_take_message_any n.pending).1 })
  unfolding receive_message_frame
  receive_stored wait_fuel n e = ground arith

  receive_nothing :
      (wait_fuel : ℕ) (n : Net)
      → (pending_take_message_any n.pending).0 ≡ none
      → receive_message_frame os (suc wait_fuel) n ≡ some (empty, ticked n)
  unfolding receive_message_frame receive_loop recvfrom
  receive_nothing wait_fuel n e = ground (arith, mute n.tick)

  -- A duplicate, and the two receives after it.
  after_duplicate :
      (wait_fuel fuel len : ℕ) (n n1 n3 n4 n5 : Net) (from next : Addr) (bytes lost : List ℕ)
      (i : ℕ) (p : Peer)
      → frame_header_size + len ≤ max_frame_size
      → receive_message_frame os wait_fuel n ≡ some (arrived from bytes, n1)
      → (get_peer n1.peers from true).0 ≡ some i
      → get_elem? (get_peer n1.peers from true).1 i ≡ some p
      → seq_bit bytes ≢ p.expected_seq_bit
      → ack_rounds os wait_fuel 3 from
          (seq_bit bytes)
          (record n1 { peers = (get_peer n1.peers from true).1 })
        ≡ some (ok, n3)
      → receive_message_frame os wait_fuel n3 ≡ some (arrived next lost, n4)
      → receive_message_frame os wait_fuel n4 ≡ some (empty, n5)
      → rudp_recvfrom os wait_fuel (suc (suc fuel)) len n ≡ some (nothing, n5)
  unfolding rudp_recvfrom recv_loop
  after_duplicate wait_fuel fuel len n n1 n3 n4 n5 from next bytes lost i p l e found entry bit
        acked e2 e3 =
      ground arith

  take_one :
      (fs : List PendingFrame) (k : ℕ)
      → messages fs ≡ suc k
      → (a : Addr) × (bytes : List ℕ) × ((pending_take_message_any fs).0 ≡ some (a, bytes))
        × (messages (pending_take_message_any fs).1 ≡ k)
  take_one fs k h = elim (has_pending_take fs) [
    | inl (e, t, g) ↦ absurd (omega (arith, has_pending-messages fs e))
    | inr (e, (a, bytes, t, m, c)) ↦ (a, bytes, t, omega arith)
  ]

  take_none : (fs : List PendingFrame) → messages fs ≡ 0 → (pending_take_message_any fs).0 ≡ none
  take_none fs h = elim (has_pending_take fs) [
    | inl (e, t, g) ↦ t
    | inr (e, (a, bytes, t, m, c)) ↦ absurd (omega arith)
  ]

  -- With two messages stored, each of which was acknowledged when it was stored, and the first
  -- of them a duplicate: `rudp_recvfrom` answers that there is nothing, and both are gone,
  -- whatever the second one is. The system sends everything and no datagram comes, the sender of
  -- the duplicate has an entry that expects the other bit, no ACK_ACK of it is stored, and the
  -- buffer fits a frame.
  pub stored_message_lost :
      (wait_fuel fuel len : ℕ) (n : Net) (from : Addr) (bytes : List ℕ) (i : ℕ) (p : Peer)
      → frame_header_size + len ≤ max_frame_size
      → messages n.pending ≡ 2
      → (pending_take_message_any n.pending).0 ≡ some (from, bytes)
      → (get_peer n.peers from true).0 ≡ some i
      → get_elem? (get_peer n.peers from true).1 i ≡ some p
      → seq_bit bytes ≢ p.expected_seq_bit
      → (pending_take_frame from ack_ack (seq_bit bytes) n.pending).0 ≡ false
      → (n' : Net) × (rudp_recvfrom os (suc wait_fuel) (suc (suc fuel)) len n ≡ some (nothing, n'))
        × (messages n'.pending ≡ 0)
  stored_message_lost wait_fuel fuel len n from bytes i p fits two first found entry bit q =
      let fs = (pending_take_message_any n.pending).1 in
      let n1 = record n { pending = fs } in
      let n2 = record n1 { peers = (get_peer n.peers from true).1 } in
      let (n3, acked, pending3, peers3) =
        ack_rounds_time_out wait_fuel 3 from (seq_bit bytes) n2
          (take_message-ack_ack from (seq_bit bytes) n.pending q) in
      let (a, b, taken, one) = take_one n.pending 1 two in
      let left : messages n3.pending ≡ 1 = ap messages pending3 ∙ one in
      let (next, lost, second, none_left) = take_one n3.pending 0 left in
      let n4 = record n3 { pending = (pending_take_message_any n3.pending).1 } in
      (
        ticked n4,
        after_duplicate (suc wait_fuel) fuel len n n1 n3 n4 (ticked n4) from next bytes lost i p
            fits (receive_stored (suc wait_fuel) n first) found entry bit acked
            (receive_stored (suc wait_fuel) n3 second)
            (receive_nothing wait_fuel n4 (take_none n4.pending none_left)),
        none_left,
      )
