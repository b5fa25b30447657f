-- ===== src/Rudp/Protocol/Limits.antt =====
-- The end of `rudp_sendto_with_limits` of src/rudp.c within its limit of attempts.
use psi_project.Base.{
  ℕ, zero, suc, ◌+◌, ◌<◌, ◌≡◌, ◌≢◌, ◌⊎◌, inl, inr, refl, true, ◌&&◌, Option, none, some, List, ltb,
  leb, if◌then◌else◌, arith, Bool-cases, Option-cases, Rc, ok, err, Rc-cases,
}
use psi_project.Rudp.Tables.{Addr, message, ack, ack_ack, frame, get_peer, pending_drop_peer_frames}
use psi_project.Rudp.Net.{Os, Net, sendto, malloc}
use psi_project.Rudp.Wait.{Waited, got, timed_out, failed, wait_for_frame}
use psi_project.Rudp.Protocol.{
  send_loop, ack_ack_rounds, send_bit, send_to_peer, rudp_sendto_with_limits,
}

abbrev pub timeout_of : ℕ → ℕ
timeout_of us = if ltb 0 us then us else 100000

module _ (os : Os) where
  -- Every wait with this fuel ends.
  abbrev pub WaitsEnd : ℕ → Addr → ℕ → ℕ → Type 0
  WaitsEnd wait_fuel to seq timeout =
      (n : Net) → wait_for_frame os wait_fuel to ack seq timeout n ≢ none

  -- With a limit the loop ends within it.
  send_loop_ends :
      (wait_fuel fuel : ℕ) (to : Addr) (bytes : List ℕ) (seq timeout max attempts : ℕ) (n : Net)
      → WaitsEnd wait_fuel to seq timeout
      → 0 < max
      → max < fuel + attempts
      → 0 < fuel
      → send_loop os wait_fuel fuel to bytes seq timeout max attempts n ≢ none
  unfolding send_loop
  send_loop_ends wait_fuel zero to bytes seq timeout max attempts n ends m h p =
      absurd (omega arith)
  send_loop_ends wait_fuel (suc fuel) to bytes seq timeout max attempts n ends m h p =
      elim (Rc-cases (sendto os n to bytes).0) [
        | inr e ↦ rw (e, send_loop) (λ c. cc)
        | inl e ↦
            waited e (wait_for_frame os wait_fuel to ack seq timeout (sendto os n to bytes).1) refl
              (λ n2.
                send_loop_ends wait_fuel fuel to bytes seq timeout max (suc attempts) n2 ends m)
      ]
    where
      n1 : Net
      n1 = (sendto os n to bytes).1

      waited :
          (sendto os n to bytes).0 ≡ ok
          → (o : Option (Waited × Net)) → wait_for_frame os wait_fuel to ack seq timeout n1 ≡ o
          → ((n2 : Net)
              → max < fuel + suc attempts
              → 0 < fuel
              → send_loop os wait_fuel fuel to bytes seq timeout max (suc attempts) n2 ≢ none)
          → send_loop os wait_fuel (suc fuel) to bytes seq timeout max attempts n ≢ none
      waited e none e2 ih = absurd (ends n1 e2)
      waited e (some (failed, n2)) e2 ih = rw (e, send_loop, e2) (λ c. cc)
      waited e (some (got, n2)) e2 ih = rw (e, send_loop, e2) (λ c. cc)
      waited e (some (timed_out, n2)) e2 ih =
          elim (Bool-cases (ltb 0 max && leb max (suc attempts))) [
            | inl last ↦ rw (e, send_loop, e2, last) (λ c. cc)
            | inr more ↦ rw (e, send_loop, e2, more) (ih n2 (omega arith) (ground arith))
          ]

  send_to_peer_ends :
      (wait_fuel fuel i : ℕ) (body : List ℕ) (to : Addr) (timeout max : ℕ) (n : Net)
      → ((seq : ℕ) → WaitsEnd wait_fuel to seq timeout)
      → 0 < max
      → max < fuel
      → send_to_peer os wait_fuel fuel i body to timeout max n ≢ none
  unfolding send_to_peer
  send_to_peer_ends wait_fuel fuel i body to timeout max n ends m h = go (Option-cases sent)
    where
      clean : Net
      clean = record n {
        pending = pending_drop_peer_frames to ack_ack (pending_drop_peer_frames to ack n.pending);
      }

      sent : Option (Rc × Net)
      sent =
          send_loop os wait_fuel fuel to (frame message (send_bit i n) body) (send_bit i n) timeout
            max 0 clean

      go :
          ((sent ≡ none) ⊎ ((r : Rc × Net) × (sent ≡ some r)))
          → send_to_peer os wait_fuel fuel i body to timeout max n ≢ none
      go (inl e) = absurd (
          send_loop_ends wait_fuel fuel to (frame message (send_bit i n) body) (send_bit i n)
            timeout max 0 clean (ends (send_bit i n)) m (omega arith) (omega arith) e)
      go (inr ((err, n1), e)) = rw (e, send_to_peer) (λ c. cc)
      go (inr ((ok, n1), e)) = elim (Rc-cases (ack_ack_rounds os 3 to (send_bit i n) n1).0) [
        | inl e2 ↦ rw (e, send_to_peer, e2) (λ c. cc)
        | inr e2 ↦ rw (e, send_to_peer, e2) (λ c. cc)
      ]

  -- A send with a limit of attempts returns, whatever the peer does, if each wait for an ACK
  -- returns and the fuel is above the limit.
  pub send_ends :
      (wait_fuel fuel : ℕ) (body : List ℕ) (to : Addr) (us max : ℕ) (n : Net)
      → ((seq : ℕ) → WaitsEnd wait_fuel to seq (timeout_of us))
      → 0 < max
      → max < fuel
      → rudp_sendto_with_limits os wait_fuel fuel body to us max n ≢ none
  unfolding rudp_sendto_with_limits
  send_ends wait_fuel fuel body to us max n ends m h =
      let n2 = (malloc os (record n { peers = (get_peer n.peers to true).1 })).1 in
      elim (Option-cases (get_peer n.peers to true).0) [
        | inl e ↦ ground arith
        | inr (i, e) ↦
            ground
              (arith, send_to_peer_ends wait_fuel fuel i body to (timeout_of us) max n2 ends m h)
      ]
