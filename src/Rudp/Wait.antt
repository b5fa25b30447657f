-- ===== src/Rudp/Wait.antt =====
-- Waiting for one frame of a peer: `wait_for_frame` of src/rudp.c, with the frames that come in the
-- meantime sorted. A loop takes fuel, and `none` means that it ran out, as a process that is still in
-- the loop.
use psi_project.Base.{
  ℕ, zero, suc, ◌+◌, ◌-◌, ◌^◌, ◌%◌, Bool, true, false, ◌&&◌, Option, none, some, List, [], ltb,
  ◌==◌, if◌then◌else◌, length, Rc,
}
use psi_project.Rudp.Tables.{
  Addr, frame_header_size, message, ack, addr_equal, frame_type, seq_bit, frame, pending_take_frame,
  pending_store_frame,
}
use psi_project.Rudp.Net.{
  Os, Net, select_error, select_timeout, select_other, select_ready, datagram, would_block,
  recv_error, gettimeofday, select, recvfrom, sendto,
}

-- `wait_for_frame` returns 1, 0 or -1.
pub data Waited : Type 0 where
  got : Waited
  timed_out : Waited
  failed : Waited

abbrev pub store : Addr → List ℕ → Net → Bool × Net
store a bytes n =
    let (stored, fs) = pending_store_frame a bytes n.pending in (stored, record n { pending = fs })

-- `remaining` of `wait_for_frame`, 0 for what is not positive. `elapsed` is the difference of the two
-- times cast to int: it wraps at 2^31 microseconds, and a clock that was set back makes it negative.
-- Where it is, the subtraction from the timeout is taken without the overflow of an int.
abbrev pub remaining : ℕ → ℕ → ℕ → ℕ
remaining start timeout now =
    let elapsed = (now + (2 ^ 32 - start % 2 ^ 32)) % 2 ^ 32 in
    if ltb elapsed (2 ^ 31) then timeout - elapsed else timeout + (2 ^ 32 - elapsed)

module _ (os : Os) where
  unfoldable pub send_ack_frame : Addr → ℕ → Net → Rc × Net
  send_ack_frame to seq n = sendto os n to (frame ack seq [])

  -- What `wait_for_frame` does with a datagram: whether it is the frame waited for, and the state. A
  -- MESSAGE is stored for later and, if there is room, acknowledged at once.
  unfoldable pub sort_frame : Addr → ℕ → ℕ → Addr → List ℕ → Net → Bool × Net
  unfolding send_ack_frame
  sort_frame addr type seq from bytes n =
      let (stored, n1) = store from bytes n in
      if ltb (length bytes) frame_header_size
      then (false, n)
      else if frame_type bytes == message
      then (false, if stored then (send_ack_frame from (seq_bit bytes) n1).1 else n1)
      else if addr_equal from addr && (frame_type bytes == type && seq_bit bytes == seq)
      then (true, n)
      else (false, n1)

  -- The loop of `wait_for_frame`.
  unfoldable pub wait_loop : ℕ → Addr → ℕ → ℕ → ℕ → ℕ → Net → Option (Waited × Net)
  wait_loop zero addr type seq start timeout n = none
  wait_loop (suc fuel) addr type seq start timeout n =
      let (now, n1) = gettimeofday os n in
      let (sel, n2) = select os n1 (remaining start timeout now) in
      let (got_one, n3) = recvfrom os n2 in
      elim (remaining start timeout now == 0) [
        | true ↦ some (timed_out, n1)
        | false ↦ elim sel [
          | select_error ↦ some (failed, n2)
          | select_timeout ↦ some (timed_out, n2)
          | select_other ↦ wait_loop fuel addr type seq start timeout n2
          | select_ready ↦ elim got_one [
            | recv_error ↦ some (failed, n3)
            | would_block ↦ some (failed, n3)
            | datagram from bytes ↦
                let (hit, n4) = sort_frame addr type seq from bytes n3 in
                elim hit [
                  | true ↦ some (got, n4)
                  | false ↦ wait_loop fuel addr type seq start timeout n4
                ]
          ]
        ]
      ]

  unfoldable pub wait_for_frame : ℕ → Addr → ℕ → ℕ → ℕ → Net → Option (Waited × Net)
  wait_for_frame fuel addr type seq timeout n =
      let (start, n1) = gettimeofday os n in
      let (taken, fs) = pending_take_frame addr type seq n1.pending in
      if taken
      then some (got, record n1 { pending = fs })
      else wait_loop fuel addr type seq start timeout n1
