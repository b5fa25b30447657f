-- ===== src/Rudp/Protocol/Sending.antt =====
-- The peer table after `rudp_sendto_with_limits` of src/rudp.c: the send bits.
use psi_project.Base.{
  ℕ, zero, suc, ◌+◌, ◌≡◌, ◌⊎◌, inl, inr, refl, ◌∙◌, true, ◌&&◌, Option, none, some, List, [], ltb,
  leb, length, arith, Bool-cases, Option-cases, Rc, ok, err, Rc-cases, get_elem?, set, subst,
}
use psi_project.Rudp.Tables.{
  Addr, Peer, message, ack, ack_ack, frame, flip, get_peer, pending_drop_peer_frames,
  frame_header_size, max_frame_size,
}
use psi_project.Rudp.Tables.Peers.{get_peer_lem}
use psi_project.Rudp.Net.{Os, Net, sendto, malloc}
use psi_project.Rudp.Wait.{Waited, got, timed_out, failed, wait_for_frame}
use psi_project.Rudp.Protocol.{
  send_loop, ack_ack_rounds, send_bit, send_to_peer, rudp_sendto_with_limits,
}
use psi_project.Rudp.Protocol.Limits.{timeout_of}
use psi_project.Rudp.Protocol.Waiting.{PeersKept, wait_peers}

abbrev pub Kept : List Peer → Option (Rc × Net) → Type 0
Kept peers none = Unit
Kept peers (some (rc, n)) = n.peers ≡ peers

-- What a send leaves in the peer table: a success flips the send bit of the peer's entry, a failure
-- leaves the table as it was, but for the entry that the peer may have got.
abbrev pub SentPeers : List Peer → Addr → Option (Rc × Net) → Type 0
SentPeers peers to none = Unit
SentPeers peers to (some (ok, n)) =
    let (found, qs) = get_peer peers to true in
    (i : ℕ) × (p : Peer) × (found ≡ some i)
    × (get_elem? qs i ≡ some p)
    × (n.peers ≡ set qs i (record p { send_seq_bit = flip p.send_seq_bit }))
SentPeers peers to (some (err, n)) = (n.peers ≡ peers) ⊎ (n.peers ≡ (get_peer peers to true).1)

module _ (os : Os) where
  pub sendto_peers :
      (n : Net) (to : Addr) (bytes : List ℕ) → (sendto os n to bytes).1.peers ≡ n.peers
  unfolding sendto
  sendto_peers n to bytes = ground arith

  send_loop-Kept :
      (wait_fuel fuel : ℕ) (to : Addr) (bytes : List ℕ) (seq timeout max attempts : ℕ) (n : Net)
      → Kept n.peers (send_loop os wait_fuel fuel to bytes seq timeout max attempts n)
  unfolding send_loop
  send_loop-Kept wait_fuel zero to bytes seq timeout max attempts n = tt
  send_loop-Kept wait_fuel (suc fuel) to bytes seq timeout max attempts n =
      elim (Rc-cases (sendto os n to bytes).0) [
        | inr e ↦ rw (e, send_loop) (sendto_peers n to bytes)
        | inl e ↦
            waited e (wait_for_frame os wait_fuel to ack seq timeout (sendto os n to bytes).1) refl
              (wait_peers os wait_fuel to ack seq timeout (sendto os n to bytes).1)
              (λ n2. send_loop-Kept wait_fuel fuel to bytes seq timeout max (suc attempts) n2)
      ]
    where
      n1 : Net
      n1 = (sendto os n to bytes).1

      waited :
          (sendto os n to bytes).0 ≡ ok
          → (o : Option (Waited × Net)) → wait_for_frame os wait_fuel to ack seq timeout n1 ≡ o
          → PeersKept n1.peers (wait_for_frame os wait_fuel to ack seq timeout n1)
          → ((n2 : Net)
              → Kept n2.peers
                  (send_loop os wait_fuel fuel to bytes seq timeout max (suc attempts) n2))
          → Kept n.peers (send_loop os wait_fuel (suc fuel) to bytes seq timeout max attempts n)
      waited e none e2 k ih = rw (e, send_loop, e2) tt
      waited e (some (failed, n2)) e2 k ih =
          let k' : n2.peers ≡ n1.peers = rw e2 at k in
          rw (e, send_loop, e2) (k' ∙ sendto_peers n to bytes)
      waited e (some (got, n2)) e2 k ih =
          let k' : n2.peers ≡ n1.peers = rw e2 at k in
          rw (e, send_loop, e2) (k' ∙ sendto_peers n to bytes)
      waited e (some (timed_out, n2)) e2 k ih =
          let k' : n2.peers ≡ n1.peers = rw e2 at k in
          let same : n2.peers ≡ n.peers = k' ∙ sendto_peers n to bytes in
          elim (Bool-cases (ltb 0 max && leb max (suc attempts))) [
            | inl last ↦ rw (e, send_loop, e2, last) same
            | inr more ↦
                rw (e, send_loop, e2, more)
                  (subst
                    (λ ps.
                      Kept ps
                        (send_loop os wait_fuel fuel to bytes seq timeout max (suc attempts) n2))
                    same (ih n2))
          ]

  ack_ack_rounds_peers :
      (k : ℕ) (to : Addr) (seq : ℕ) (n : Net) → (ack_ack_rounds os k to seq n).1.peers ≡ n.peers
  unfolding ack_ack_rounds
  ack_ack_rounds_peers zero to seq n = refl
  ack_ack_rounds_peers (suc k) to seq n =
      let bytes = frame ack_ack seq [] in
      ground
        (arith, sendto_peers n to bytes, ack_ack_rounds_peers k to seq (sendto os n to bytes).1)

  abbrev Flipped : List Peer → ℕ → Peer → Option (Rc × Net) → Type 0
  Flipped qs i p none = Unit
  Flipped qs i p (some (ok, n)) =
      n.peers ≡ set qs i (record p { send_seq_bit = flip p.send_seq_bit })
  Flipped qs i p (some (err, n)) = n.peers ≡ qs

  send_to_peer-Flipped :
      (wait_fuel fuel i : ℕ) (body : List ℕ) (to : Addr) (timeout max : ℕ) (n : Net) (p : Peer)
      → get_elem? n.peers i ≡ some p
      → Flipped n.peers i p (send_to_peer os wait_fuel fuel i body to timeout max n)
  unfolding send_to_peer
  send_to_peer-Flipped wait_fuel fuel i body to timeout max n p at_ = go sent refl (
      send_loop-Kept wait_fuel fuel to (frame message (send_bit i n) body) (send_bit i n) timeout
        max 0 clean)
    where
      clean : Net
      clean = record n {
        pending = pending_drop_peer_frames to ack_ack (pending_drop_peer_frames to ack n.pending);
      }

      sent : Option (Rc × Net)
      sent =
          send_loop os wait_fuel fuel to (frame message (send_bit i n) body) (send_bit i n) timeout
            max 0 clean

      go :
          (o : Option (Rc × Net))
          → sent ≡ o
          → Kept n.peers sent
          → Flipped n.peers i p (send_to_peer os wait_fuel fuel i body to timeout max n)
      go none e k = rw (e, send_to_peer) tt
      go (some (err, n1)) e k = rw (e, send_to_peer) (rw e at k)
      go (some (ok, n1)) e k =
          let k1 : n1.peers ≡ n.peers = rw e at k in
          let acked = ack_ack_rounds os 3 to (send_bit i n) n1 in
          let k2 : acked.1.peers ≡ n.peers = ack_ack_rounds_peers 3 to (send_bit i n) n1 ∙ k1 in
          elim (Rc-cases acked.0) [
            | inr e2 ↦ rw (e, send_to_peer, e2) k2
            | inl e2 ↦
                let at2 : get_elem? acked.1.peers i ≡ some p = rw k2 at_ in
                rw (e, send_to_peer, e2) (ground (arith, at2, k2))
          ]

  -- A send that succeeds flips the send bit of the peer's entry and changes no other; one that fails
  -- leaves the peer table as it was, or as `get_peer` left it.
  pub send-SentPeers :
      (wait_fuel fuel : ℕ) (body : List ℕ) (to : Addr) (us max : ℕ) (n : Net)
      → SentPeers n.peers to (rudp_sendto_with_limits os wait_fuel fuel body to us max n)
  unfolding rudp_sendto_with_limits malloc
  send-SentPeers wait_fuel fuel body to us max n =
      elim (Bool-cases (ltb max_frame_size (frame_header_size + length body))) [
        | inl long ↦ rw long (inl refl)
        | inr short ↦ elim (Option-cases (get_peer n.peers to true).0) [
          | inl e ↦ rw (short, e) (inr refl)
          | inr (i, e) ↦ elim (Bool-cases (malloc os n1).0) [
            | inr full ↦ rw (short, e, full) (inr refl)
            | inl memory ↦
                let (p, at_, u, a) = get_peer_lem n.peers to true e in
                rw (short, e, memory)
                  (spread i p e at_ _ (
                    send_to_peer-Flipped wait_fuel fuel i body to (timeout_of us) max
                      (malloc os n1).1 p at_))
          ]
        ]
      ]
    where
      n1 : Net
      n1 = record n { peers = (get_peer n.peers to true).1 }

      spread :
          (i : ℕ) (p : Peer)
          → (get_peer n.peers to true).0 ≡ some i
          → get_elem? (get_peer n.peers to true).1 i ≡ some p
          → (o : Option (Rc × Net)) → Flipped (get_peer n.peers to true).1 i p o
          → SentPeers n.peers to o
      spread i p e at_ none f = tt
      spread i p e at_ (some (ok, n')) f = (i, p, e, at_, f)
      spread i p e at_ (some (err, n')) f = inr f
