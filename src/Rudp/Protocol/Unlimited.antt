-- ===== src/Rudp/Protocol/Unlimited.antt =====
-- A send without a limit of attempts, as ring_on_token of src/ring.c makes it (TOKEN_ACK_MAX_ATTEMPTS
-- is 0), to a peer that does not answer.
use psi_project.Base.{
  ℕ, zero, suc, ◌+◌, ◌≤◌, ◌≡◌, inl, inr, refl, true, false, none, some, List, ltb, ◌==◌, arith,
  length, Bool-cases, ok, [], ◌∷◌,
}
use psi_project.Rudp.Tables.{
  Addr, PendingFrame, ack, ack_ack, message, frame, get_peer, pending_take_frame,
  pending_drop_peer_frames, frame_header_size, max_frame_size,
}
use psi_project.Rudp.Tables.Pending.{take-drop}
use psi_project.Rudp.Net.{Os, Net, select_timeout, sendto, gettimeofday, select, malloc, ticked}
use psi_project.Rudp.Wait.{remaining, timed_out, wait_loop, wait_for_frame}
use psi_project.Rudp.Protocol.{send_loop, send_bit, send_to_peer, rudp_sendto_with_limits}
use psi_project.Rudp.Protocol.Limits.{timeout_of}

-- No acknowledgement of this peer and bit is stored.
abbrev Quiet : Addr → ℕ → List PendingFrame → Type 0
Quiet to seq fs = (pending_take_frame to ack seq fs).0 ≡ false

drop-Quiet :
    (to : Addr) (seq type : ℕ) (fs : List PendingFrame)
    → Quiet to seq fs
    → Quiet to seq (pending_drop_peer_frames to type fs)
unfolding pending_take_frame pending_drop_peer_frames
drop-Quiet to seq type [] h = refl
drop-Quiet to seq type (f ∷ fs) h = ground (arith, drop-Quiet to seq type fs)

-- The system sends everything and no datagram comes.
pub record Silent (os : Os) : Type 0 where
  pub nothing_comes : (t timeout : ℕ) → os.select t timeout ≡ select_timeout
  pub sends : (t : ℕ) (to : Addr) (bytes : List ℕ) → os.sendto t to bytes ≡ ok
  pub has_memory : (t : ℕ) → os.malloc t ≡ true

module _ (os : Os) (silent : Silent os) where
  pub wait_times_out :
      (wait_fuel : ℕ) (to : Addr) (type seq timeout : ℕ) (n : Net)
      → (pending_take_frame to type seq n.pending).0 ≡ false
      → (n' : Net) × (wait_for_frame os (suc wait_fuel) to type seq timeout n
          ≡ some (timed_out, n'))
        × (n'.pending ≡ n.pending)
        × (n'.peers ≡ n.peers)
  unfolding wait_for_frame wait_loop gettimeofday select
  wait_times_out wait_fuel to type seq timeout n q =
      let n1 = ticked n in
      let start = os.clock n.tick in
      elim (Bool-cases (remaining start timeout (os.clock n1.tick) == 0)) [
        | inl late ↦ (ticked n1, rw (q, wait_loop, late) refl, refl, refl)
        | inr soon ↦ (
          ticked (ticked n1),
          rw
              (
                q,
                wait_loop,
                soon,
                silent.nothing_comes (suc n1.tick) (remaining start timeout (os.clock n1.tick)),
              )
              refl,
          refl,
          refl,
        )
      ]

  send_loop_never_ends :
      (wait_fuel fuel : ℕ) (to : Addr) (bytes : List ℕ) (seq timeout attempts : ℕ) (n : Net)
      → Quiet to seq n.pending
      → send_loop os (suc wait_fuel) fuel to bytes seq timeout 0 attempts n ≡ none
  unfolding send_loop sendto
  send_loop_never_ends wait_fuel zero to bytes seq timeout attempts n q = refl
  send_loop_never_ends wait_fuel (suc fuel) to bytes seq timeout attempts n q =
      let n1 = (sendto os n to bytes).1 in
      let q1 : Quiet to seq n1.pending = ground (arith, silent.sends n.tick to bytes) in
      let sent : (sendto os n to bytes).0 ≡ ok = ground (arith, silent.sends n.tick to bytes) in
      let (n2, e, k, same) = wait_times_out wait_fuel to ack seq timeout n1 q1 in
      rw (send_loop, sent, e)
        (send_loop_never_ends wait_fuel fuel to bytes seq timeout (suc attempts) n2 (rw k q1))

  -- A send without a limit of attempts to a peer that never answers does not return, whatever
  -- the fuel: with max_attempts 0 a timeout is never the last. The system sends everything, has
  -- memory and delivers nothing, the peer has an entry or gets one, and the message fits a
  -- frame.
  pub unlimited_never_ends :
      (wait_fuel fuel : ℕ) (body : List ℕ) (to : Addr) (us i : ℕ) (n : Net)
      → frame_header_size + length body ≤ max_frame_size
      → (get_peer n.peers to true).0 ≡ some i
      → rudp_sendto_with_limits os (suc wait_fuel) fuel body to us 0 n ≡ none
  unfolding rudp_sendto_with_limits send_to_peer malloc
  unlimited_never_ends wait_fuel fuel body to us i n h e =
      let n2 = ticked (record n { peers = (get_peer n.peers to true).1 }) in
      let seq = send_bit i n2 in
      let dropped : List PendingFrame = pending_drop_peer_frames to ack n.pending in
      let clean : Net = record n2 { pending = pending_drop_peer_frames to ack_ack dropped } in
      let q = drop-Quiet to seq ack_ack dropped (take-drop to ack seq n.pending) in
      let stuck =
        send_loop_never_ends wait_fuel fuel to (frame message seq body) seq (timeout_of us) 0 clean
          q in
      let fits : ltb max_frame_size (frame_header_size + length body) ≡ false = ground arith in
      rw (fits, e, silent.has_memory n.tick, send_to_peer, stuck) refl
