-- ===== src/Rudp/Protocol/Waiting.antt =====
-- `wait_for_frame` of src/rudp.c: its end, its answers and the peer table.
use psi_project.Base.{
  ℕ, zero, suc, ◌+◌, ◌<◌, ◌≤◌, ◌≡◌, ◌≢◌, ◌⊎◌, inl, inr, refl, true, false, Option, none, some, List,
  [], ltb, ◌==◌, ◌^◌, arith, Bool-cases,
}
use psi_project.Rudp.Tables.{
  Addr, Peer, addr_equal, frame_type, seq_bit, pending_take_frame, pending_store_frame, ack, frame,
}
use psi_project.Rudp.Net.{
  Os, Net, Selected, select_error, select_timeout, select_other, select_ready, Received, datagram,
  would_block, recv_error, gettimeofday, select, recvfrom, sendto, ticked,
}
use psi_project.Rudp.Wait.{
  remaining, Waited, got, timed_out, failed, sort_frame, wait_loop, wait_for_frame, send_ack_frame,
}

-- A datagram that the system delivers is the frame that is waited for.
abbrev pub IsWanted : Addr → ℕ → ℕ → Addr → List ℕ → Type 0
IsWanted addr type seq from bytes =
    (addr_equal from addr ≡ true) × (frame_type bytes ≡ type) × (seq_bit bytes ≡ seq)

remaining_none :
    (start timeout now : ℕ)
    → start + timeout ≤ now
    → now < start + 2 ^ 31
    → remaining start timeout now ≡ 0
remaining_none start timeout now lo hi = ground arith

abbrev pub PeersKept : List Peer → Option (Waited × Net) → Type 0
PeersKept peers none = Unit
PeersKept peers (some (r, n)) = n.peers ≡ peers

module _ (os : Os) where
  sendto_steps :
      (n : Net) (to : Addr) (bytes : List ℕ)
      → let n' = (sendto os n to bytes).1 in
        (n'.tick ≡ suc n.tick) × (n'.peers ≡ n.peers) × (n'.pending ≡ n.pending)
  unfolding sendto
  sendto_steps n to bytes = ground arith

  sort_frame_steps :
      (addr : Addr) (type seq : ℕ) (from : Addr) (bytes : List ℕ) (n : Net)
      → let (hit, n') = sort_frame os addr type seq from bytes n in
        (n.tick ≤ n'.tick)
        × (n'.tick ≤ suc n.tick)
        × (n'.peers ≡ n.peers)
        × (hit ≡ true → IsWanted addr type seq from bytes)
  unfolding sort_frame send_ack_frame
  sort_frame_steps addr type seq from bytes n =
      let n1 = record n { pending = (pending_store_frame from bytes n.pending).1 } in
      ground (arith, sendto_steps n1 from (frame ack (seq_bit bytes) []))

  -- One round of the loop: it ends without the frame, ends with it, or goes on with a later state.
  data Round (fuel : ℕ) (addr : Addr) (type seq start timeout : ℕ) (n : Net) : Type 0 where
    ends :
        (r : Waited) (n' : Net)
        → r ≢ got
        → wait_loop os (suc fuel) addr type seq start timeout n ≡ some (r, n')
        → n'.peers ≡ n.peers
        → Round fuel addr type seq start timeout n
    hits :
        (from : Addr) (bytes : List ℕ) (t : ℕ) (n' : Net)
        → os.recv t ≡ datagram from bytes
        → IsWanted addr type seq from bytes
        → wait_loop os (suc fuel) addr type seq start timeout n ≡ some (got, n')
        → n'.peers ≡ n.peers
        → Round fuel addr type seq start timeout n
    goes_on :
        (n' : Net)
        → wait_loop os (suc fuel) addr type seq start timeout n
          ≡ wait_loop os fuel addr type seq start timeout n'
        → n.tick < n'.tick
        → n'.tick ≤ 4 + n.tick
        → n'.peers ≡ n.peers
        → (remaining start timeout (os.clock n.tick) == 0) ≡ false
        → Round fuel addr type seq start timeout n

  round :
      (fuel : ℕ) (addr : Addr) (type seq start timeout : ℕ) (n : Net)
      → Round fuel addr type seq start timeout n
  unfolding wait_loop gettimeofday select recvfrom
  round fuel addr type seq start timeout n =
      elim (Bool-cases (remaining start timeout (os.clock n.tick) == 0)) [
        | inl late ↦ ends timed_out n1 (λ e. cc) (ground arith) refl
        | inr soon ↦ on_select soon (os.select n1.tick left_now) refl
      ]
    where
      n1 : Net
      n1 = ticked n

      n2 : Net
      n2 = ticked n1

      n3 : Net
      n3 = ticked n2

      left_now : ℕ
      left_now = remaining start timeout (os.clock n.tick)

      on_recv :
          (left_now == 0) ≡ false
          → os.select n1.tick left_now ≡ select_ready
          → (r : Received) → os.recv n2.tick ≡ r
          → Round fuel addr type seq start timeout n
      on_recv soon e recv_error e2 = ends failed n3 (λ e. cc) (ground arith) refl
      on_recv soon e would_block e2 = ends failed n3 (λ e. cc) (ground arith) refl
      on_recv soon e (datagram from bytes) e2 =
          let (later, soon_after, peers, wanted) = sort_frame_steps addr type seq from bytes n3 in
          elim (Bool-cases (sort_frame os addr type seq from bytes n3).0) [
            | inl hit ↦
                hits from bytes n2.tick (sort_frame os addr type seq from bytes n3).1 e2
                  (wanted hit) (ground arith) peers
            | inr miss ↦
                goes_on (sort_frame os addr type seq from bytes n3).1 (ground arith) (omega arith)
                  (omega arith) peers soon
          ]

      on_select :
          (left_now == 0) ≡ false
          → (s : Selected) → os.select n1.tick left_now ≡ s
          → Round fuel addr type seq start timeout n
      on_select soon select_error e = ends failed n2 (λ e. cc) (ground arith) refl
      on_select soon select_timeout e = ends timed_out n2 (λ e. cc) (ground arith) refl
      on_select soon select_other e =
          goes_on n2 (ground arith) (omega arith) (omega arith) refl soon
      on_select soon select_ready e = on_recv soon e (os.recv n2.tick) refl

  -- The clock is past the end of the timeout at the calls from `limit` to `limit + 3`, and not by so
  -- much that the difference wraps.
  abbrev pub Passes : ℕ → ℕ → ℕ → Type 0
  Passes limit start timeout =
      (t : ℕ)
      → limit ≤ t
      → t ≤ 3 + limit
      → (start + timeout ≤ os.clock t) × (os.clock t < start + 2 ^ 31)

  wait_loop_ends :
      (fuel limit : ℕ) (addr : Addr) (type seq start timeout : ℕ) (n : Net)
      → Passes limit start timeout
      → n.tick ≤ 3 + limit
      → limit < fuel + n.tick
      → 0 < fuel
      → wait_loop os fuel addr type seq start timeout n ≢ none
  wait_loop_ends zero limit addr type seq start timeout n late b h p = absurd (omega arith)
  wait_loop_ends (suc fuel) limit addr type seq start timeout n late b h p =
      step (round fuel addr type seq start timeout n)
        (λ n'. wait_loop_ends fuel limit addr type seq start timeout n' late)
    where
      before : (remaining start timeout (os.clock n.tick) == 0) ≡ false → n.tick < limit
      before soon = elim (Bool-cases (ltb n.tick limit)) [
        | inl e ↦ ground arith
        | inr e ↦
            let (lo, hi) = late n.tick (ground arith) b in
            absurd (ground (arith, remaining_none start timeout (os.clock n.tick) lo hi))
      ]

      step :
          Round fuel addr type seq start timeout n
          → ((n' : Net)
              → n'.tick ≤ 3 + limit
              → limit < fuel + n'.tick
              → 0 < fuel
              → wait_loop os fuel addr type seq start timeout n' ≢ none)
          → wait_loop os (suc fuel) addr type seq start timeout n ≢ none
      step (ends r n' g e p) ih = rw e (λ c. cc)
      step (hits from bytes t n' a b e p) ih = rw e (λ c. cc)
      step (goes_on n' e later near p c) ih =
          let early = before c in rw e (ih n' (omega arith) (omega arith) (omega arith))

  -- What an answer of the loop says of the datagrams that the system delivered.
  abbrev pub Answer : Addr → ℕ → ℕ → List Peer → Option (Waited × Net) → Type 0
  Answer addr type seq peers none = Unit
  Answer addr type seq peers (some (r, n)) =
      (n.peers ≡ peers)
      × ((r ≢ got)
          ⊎ ((from : Addr) × (bytes : List ℕ) × (t : ℕ) × (os.recv t ≡ datagram from bytes)
              × IsWanted addr type seq from bytes))

  wait_loop-Answer :
      (fuel : ℕ) (addr : Addr) (type seq start timeout : ℕ) (n : Net)
      → Answer addr type seq n.peers (wait_loop os fuel addr type seq start timeout n)
  unfolding wait_loop
  wait_loop-Answer zero addr type seq start timeout n = tt
  wait_loop-Answer (suc fuel) addr type seq start timeout n =
      step (round fuel addr type seq start timeout n)
        (λ n'. wait_loop-Answer fuel addr type seq start timeout n')
    where
      step :
          Round fuel addr type seq start timeout n
          → ((n' : Net)
              → Answer addr type seq n'.peers (wait_loop os fuel addr type seq start timeout n'))
          → Answer addr type seq n.peers (wait_loop os (suc fuel) addr type seq start timeout n)
      step (ends r n' g e p) ih = rw e (p, inl g)
      step (hits from bytes t n' a b e p) ih = rw e (p, inr (from, bytes, t, a, b))
      step (goes_on n' e later near p c) ih = rw (e, ← p) (ih n')

  -- `wait_for_frame` returns whatever the peers send, if the clock is past the timeout at the four
  -- calls from the call number `limit` on, by less than 2^31 microseconds since the start, and the
  -- fuel reaches that far.
  pub wait_ends :
      (fuel limit : ℕ) (addr : Addr) (type seq timeout : ℕ) (n : Net)
      → Passes limit (os.clock n.tick) timeout
      → n.tick ≤ limit
      → limit < fuel + n.tick
      → 0 < fuel
      → wait_for_frame os fuel addr type seq timeout n ≢ none
  unfolding wait_for_frame gettimeofday
  wait_ends fuel limit addr type seq timeout n late b h p =
      ground
        (arith, wait_loop_ends fuel limit addr type seq (os.clock n.tick) timeout (ticked n) late)

  -- A wait does not change the peers.
  pub wait_peers :
      (fuel : ℕ) (addr : Addr) (type seq timeout : ℕ) (n : Net)
      → PeersKept n.peers (wait_for_frame os fuel addr type seq timeout n)
  unfolding wait_for_frame gettimeofday
  wait_peers fuel addr type seq timeout n =
      elim (Bool-cases (pending_take_frame addr type seq n.pending).0) [
        | inl stored ↦ rw stored refl
        | inr fresh ↦
            rw fresh
              (weaken _ (wait_loop-Answer fuel addr type seq (os.clock n.tick) timeout (ticked n)))
      ]
    where
      weaken : (o : Option (Waited × Net)) → Answer addr type seq n.peers o → PeersKept n.peers o
      weaken none a = tt
      weaken (some (r, n')) a = a.0
