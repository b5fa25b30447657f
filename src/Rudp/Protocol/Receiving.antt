-- ===== src/Rudp/Protocol/Receiving.antt =====
-- `rudp_recvfrom` of src/rudp.c: frames that are new and frames that are not.
use psi_project.Base.{
  ℕ, zero, suc, ◌+◌, ◌≤◌, ◌≡◌, inl, inr, refl, ◌∙◌, true, Option, none, some, List, [], arith, ok,
  Rc-cases, get_elem?, set, subst, take, drop,
}
use psi_project.Rudp.Tables.{
  Addr, Peer, ack, ack_ack, frame, flip, get_peer, seq_bit, frame_header_size, max_frame_size,
}
use psi_project.Rudp.Net.{Os, Net}
use psi_project.Rudp.Wait.{Waited, got, timed_out, failed, wait_for_frame, send_ack_frame}
use psi_project.Rudp.Protocol.{
  arrived, delivered, receive_message_frame, ack_rounds, recv_loop, rudp_recvfrom, timeout_usec,
}
use psi_project.Rudp.Protocol.Waiting.{PeersKept, wait_peers}
use psi_project.Rudp.Protocol.Sending.{Kept, sendto_peers}

module _ (os : Os) where
  pub ack_rounds-Kept :
      (wait_fuel k : ℕ) (to : Addr) (seq : ℕ) (n : Net)
      → Kept n.peers (ack_rounds os wait_fuel k to seq n)
  unfolding ack_rounds send_ack_frame
  ack_rounds-Kept wait_fuel zero to seq n = refl
  ack_rounds-Kept wait_fuel (suc k) to seq n = elim (Rc-cases (send_ack_frame os to seq n).0) [
    | inr e ↦ rw (e, ack_rounds) (sendto_peers os n to (frame ack seq []))
    | inl e ↦
        waited e (wait_for_frame os wait_fuel to ack_ack seq timeout_usec n1) refl
          (wait_peers os wait_fuel to ack_ack seq timeout_usec n1)
          (λ n2. ack_rounds-Kept wait_fuel k to seq n2)
  ]
    where
      n1 : Net
      n1 = (send_ack_frame os to seq n).1

      same : n1.peers ≡ n.peers
      same = sendto_peers os n to (frame ack seq [])

      waited :
          (send_ack_frame os to seq n).0 ≡ ok
          → (o : Option (Waited × Net))
          → wait_for_frame os wait_fuel to ack_ack seq timeout_usec n1 ≡ o
          → PeersKept n1.peers (wait_for_frame os wait_fuel to ack_ack seq timeout_usec n1)
          → ((n2 : Net) → Kept n2.peers (ack_rounds os wait_fuel k to seq n2))
          → Kept n.peers (ack_rounds os wait_fuel (suc k) to seq n)
      waited e none e2 kept ih = rw (e, ack_rounds, e2) tt
      waited e (some (failed, n2)) e2 kept ih =
          let k2 : n2.peers ≡ n1.peers = rw e2 at kept in rw (e, ack_rounds, e2) (k2 ∙ same)
      waited e (some (got, n2)) e2 kept ih =
          let k2 : n2.peers ≡ n1.peers = rw e2 at kept in rw (e, ack_rounds, e2) (k2 ∙ same)
      waited e (some (timed_out, n2)) e2 kept ih =
          let k2 : n2.peers ≡ n1.peers = rw e2 at kept in
          rw (e, ack_rounds, e2)
            (subst (λ ps. Kept ps (ack_rounds os wait_fuel k to seq n2)) (k2 ∙ same) (ih n2))

  -- A frame that carries the bit that its sender's entry expects is delivered, once the rounds
  -- of acknowledgement are over without an error, and the expected bit of the entry flips. The
  -- buffer fits a frame.
  pub recv_fresh :
      (wait_fuel fuel len : ℕ) (n n1 n3 : Net) (from : Addr) (bytes : List ℕ) (i : ℕ) (p : Peer)
      → frame_header_size + len ≤ max_frame_size
      → receive_message_frame os wait_fuel n ≡ some (arrived from bytes, n1)
      → (get_peer n1.peers from true).0 ≡ some i
      → get_elem? (get_peer n1.peers from true).1 i ≡ some p
      → seq_bit bytes ≡ p.expected_seq_bit
      → ack_rounds os wait_fuel 3 from
          (seq_bit bytes)
          (record n1 { peers = (get_peer n1.peers from true).1 })
        ≡ some (ok, n3)
      → rudp_recvfrom os wait_fuel (suc fuel) len n
        ≡ some (
          delivered from (take len (drop frame_header_size bytes)),
          record n3 {
            peers =
                set
                  (get_peer n1.peers from true).1
                  i
                  (record p { expected_seq_bit = flip p.expected_seq_bit });
          },
        )
  unfolding rudp_recvfrom recv_loop
  recv_fresh wait_fuel fuel len n n1 n3 from bytes i p l e found at_ bit acked =
      let n2 = record n1 { peers = (get_peer n1.peers from true).1 } in
      let kept : n3.peers ≡ n2.peers =
        rw acked at (ack_rounds-Kept wait_fuel 3 from (seq_bit bytes) n2) in
      ground arith
