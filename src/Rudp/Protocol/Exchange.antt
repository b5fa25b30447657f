-- ===== src/Rudp/Protocol/Exchange.antt =====
-- One message from a sender to a receiver of src/rudp.c, and the bits at both ends: the send bit of
-- the receiver's entry at the sender, the expected bit of the sender's entry at the receiver.
use psi_project.Base.{
  ℕ, zero, suc, ◌+◌, ◌<◌, ◌≤◌, ◌≡◌, ◌≢◌, ◌⊎◌, inl, inr, refl, sym, ◌∙◌, true, some, List, ◌∷◌, [],
  arith, Rc, ok, err, get_elem?, set, take, subst, drop,
}
use psi_project.Rudp.Tables.{
  Addr, Peer, message, frame, flip, get_peer, seq_bit, frame_header_size, max_frame_size,
}
use psi_project.Rudp.Tables.Pending.{frame_fields}
use psi_project.Rudp.Net.{Os, Net}
use psi_project.Rudp.Protocol.{
  send_bit, expected_bit, arrived, delivered, receive_message_frame, ack_rounds, rudp_recvfrom,
  rudp_sendto_with_limits,
}
use psi_project.Rudp.Protocol.Sending.{SentPeers, send-SentPeers}
use psi_project.Rudp.Protocol.Receiving.{recv_fresh}

flip_ne : (b : ℕ) → b < 2 → flip b ≢ b
flip_ne zero h e = omega arith
flip_ne (suc zero) h e = omega arith
flip_ne (suc (suc b)) h e = omega arith

get_elem?-set_same {ℓ} :
    {A : Type ℓ} (xs : List A) (i : ℕ) (a b : A)
    → get_elem? xs i ≡ some b
    → get_elem? (set xs i a) i ≡ some a
get_elem?-set_same [] i a b h = absurd (ground arith)
get_elem?-set_same (x ∷ xs) zero a b h = refl
get_elem?-set_same (x ∷ xs) (suc i) a b h = get_elem?-set_same xs i a b h

drop_header : (type seq : ℕ) (body : List ℕ) → drop frame_header_size (frame type seq body) ≡ body
unfolding frame
drop_header type seq body = refl

-- The send bit of an entry that was flipped in the table.
flipped_send_bit :
    (ps : List Peer) (n' : Net) (i j : ℕ) (p q : Peer)
    → get_elem? ps i ≡ some p
    → some i ≡ some j
    → get_elem? ps j ≡ some q
    → n'.peers ≡ set ps j (record q { send_seq_bit = flip q.send_seq_bit })
    → send_bit i n' ≡ flip p.send_seq_bit
flipped_send_bit ps n' i j p q at_ same at_j kept =
    let eq : i ≡ j = ground arith in
    let eq_p : p ≡ q = ground arith in
    let there = get_elem?-set_same ps j (record q { send_seq_bit = flip q.send_seq_bit }) q at_j in
    rw (eq, kept, send_bit, there, eq_p) refl

-- The send bit after a send: flipped exactly with success.
sent_bit :
    (os : Os) (wait_fuel fuel : ℕ) (body : List ℕ) (to : Addr) (us max : ℕ) (n n' : Net) (i : ℕ)
    (p : Peer) (rc : Rc)
    → get_peer n.peers to true ≡ (some i, n.peers)
    → get_elem? n.peers i ≡ some p
    → rudp_sendto_with_limits os wait_fuel fuel body to us max n ≡ some (rc, n')
    → ((rc ≡ ok) × (send_bit i n' ≡ flip p.send_seq_bit))
      ⊎ ((rc ≡ err) × (send_bit i n' ≡ p.send_seq_bit))
sent_bit os wait_fuel fuel body to us max n n' i p ok found at_ e =
    let s : SentPeers n.peers to (some (ok, n')) =
      subst (SentPeers n.peers to) e (send-SentPeers os wait_fuel fuel body to us max n) in
    let (j, q, same, at_j, kept) = rw found at s in
    inl (refl, flipped_send_bit n.peers n' i j p q at_ same at_j kept)
sent_bit os wait_fuel fuel body to us max n n' i p err found at_ e =
    let s : SentPeers n.peers to (some (err, n')) =
      subst (SentPeers n.peers to) e (send-SentPeers os wait_fuel fuel body to us max n) in
    elim (rw found at s) [
      | inl kept ↦ inr (refl, rw (kept, send_bit, at_) refl)
      | inr kept ↦ inr (refl, rw (kept, send_bit, at_) refl)
    ]

module _ (sender receiver : Os) (wait_fuel fuel : ℕ) where
  -- A message and its receiver, whose entry for the sender expects the bit that the sender's entry
  -- for the receiver has: the receiver delivers the body. If the send is then reported as a success
  -- the bits agree again; if it is reported as a failure they no longer do. Both have entries for
  -- each other, and at the receiver the frame is the next to arrive, fits the buffer, and the rounds
  -- of acknowledgement are over without an error.
  pub exchange_bits :
      (body : List ℕ) (to from : Addr) (us max len i j : ℕ) (p q : Peer) (rc : Rc)
      (n n' m m1 m3 : Net)
      → get_peer n.peers to true ≡ (some i, n.peers)
      → get_elem? n.peers i ≡ some p
      → p.send_seq_bit < 2
      → rudp_sendto_with_limits sender wait_fuel fuel body to us max n ≡ some (rc, n')
      → frame_header_size + len ≤ max_frame_size
      → receive_message_frame receiver wait_fuel m
        ≡ some (arrived from (frame message p.send_seq_bit body), m1)
      → get_peer m1.peers from true ≡ (some j, m1.peers)
      → get_elem? m1.peers j ≡ some q
      → q.expected_seq_bit ≡ p.send_seq_bit
      → ack_rounds receiver wait_fuel 3 from p.send_seq_bit m1 ≡ some (ok, m3)
      → (m' : Net) × (rudp_recvfrom receiver wait_fuel (suc fuel) len m
          ≡ some (delivered from (take len body), m'))
        × (((rc ≡ ok) × (expected_bit j m' ≡ send_bit i n'))
            ⊎ ((rc ≡ err) × (expected_bit j m' ≢ send_bit i n')))
  exchange_bits body to from us max len i j p q rc n n' m m1 m3 known at_ bit sent fits arrives
        known' at_q sync acked =
      let bytes = frame message p.send_seq_bit body in
      let q' : Peer = record q { expected_seq_bit = flip q.expected_seq_bit } in
      let m' : Net = record m3 { peers = set m1.peers j q' } in
      let read : seq_bit bytes ≡ p.send_seq_bit =
        (frame_fields message p.send_seq_bit body (omega arith)).1 in
      let got =
        recv_fresh receiver wait_fuel fuel len m m1 m3 from bytes j q fits arrives (rw known' refl)
          (rw known' at_q) (read ∙ sym sync) (rw (known', read) acked) in
      let there : get_elem? (set m1.peers j q') j ≡ some q' =
        get_elem?-set_same m1.peers j q' q at_q in
      let expects : expected_bit j m' ≡ flip p.send_seq_bit = rw (expected_bit, there, sync) refl in
      (
        m',
        rw (known', drop_header message p.send_seq_bit body) at got,
        elim (sent_bit sender wait_fuel fuel body to us max n n' i p rc known at_ sent) [
          | inl (worked, b) ↦ inl (worked, expects ∙ sym b)
          | inr (broke, b) ↦ inr (broke, λ e. flip_ne p.send_seq_bit bit (sym expects ∙ (e ∙ b)))
        ],
      )
