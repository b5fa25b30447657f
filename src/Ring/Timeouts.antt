-- ===== src/Ring/Timeouts.antt =====
-- How long the loop may sleep in select: set_select_timeout of src/ring.c.
use psi_project.Base.{
  ℕ, ◌+◌, ◌<◌, ◌≤◌, ◌≡◌, Bool, true, false, not, ◌&&◌, ◌||◌, if◌then◌else◌, arith, ltb, max,
}
use psi_project.Base.{◌↔◌, ◌≢◌}
use psi_project.Node.{RingState}
use psi_project.Link.{Timeout}
use psi_project.Deadline.{set_select_timeout, next_deadline, at_once, sooner, resend_at}

resend_bounds :
    (last now after : ℕ)
    → 0 < now
    → (0 < resend_at last now after) × (resend_at last now after ≤ max now (last + after))
unfolding resend_at
resend_bounds last now after h = ground arith

sooner_bounds :
    (due : Bool) (deadline next : ℕ)
    → 0 < deadline
    → (0 < next → (0 < sooner due deadline next) × (sooner due deadline next ≤ next))
      × (due ≡ true → (0 < sooner due deadline next) × (sooner due deadline next ≤ deadline))
unfolding sooner
sooner_bounds due deadline next h = ground arith

-- A timer that is due by `d` bounds the deadline.
abbrev By : ℕ → ℕ → Type 0
By n d = (0 < n) × (n ≤ d)

deadline_bounds :
    (s : RingState) (now : ℕ)
    → 0 < now
    → let n = next_deadline s now in
      let flight = s.join_inflight in
      let sender = s.ack_sender in
      (s.joined ≡ false → By n (max now (s.join_request_last_sent + 10)))
      × ((flight.active && not (flight.got_confirm_prev && flight.got_confirm_joiner)) ≡ true
          → By n (max now (flight.last_sent + 1)))
      × (0 < s.join_state.count → By n (now + 1))
      × ((sender.active && not sender.got_ack_ack) ≡ true → By n (max now (sender.last_sent + 1)))
unfolding next_deadline
deadline_bounds s now h =
    let flight = s.join_inflight in
    let sender = s.ack_sender in
    let r1 = resend_at s.join_request_last_sent now 10 in
    let r2 = resend_at flight.last_sent now 1 in
    let r4 = resend_at sender.last_sent now 1 in
    let c2 = flight.active && not (flight.got_confirm_prev && flight.got_confirm_joiner) in
    let c4 = sender.active && not sender.got_ack_ack in
    let d1 : ℕ = if not s.joined then r1 else 0 in
    let d2 = sooner c2 r2 d1 in
    let d3 = sooner (ltb 0 s.join_state.count) (now + 1) d2 in
    let b1 = resend_bounds s.join_request_last_sent now 10 h in
    let b2 = resend_bounds flight.last_sent now 1 h in
    let b4 = resend_bounds sender.last_sent now 1 h in
    let s2 = sooner_bounds c2 r2 d1 b2.0 in
    let s3 = sooner_bounds (ltb 0 s.join_state.count) (now + 1) d2 (omega arith) in
    let s4 = sooner_bounds c4 r4 d3 b4.0 in (ground arith, ground arith, ground arith, ground arith)

-- Work at hand is done without sleeping: a join that both nodes have confirmed, a frame that is
-- stored already, or the token with no join in flight.
pub work_at_once :
    (s : RingState) (pending : Bool) (now : ℕ) (old : Timeout)
    → (((s.join_inflight.active && s.join_inflight.got_confirm_prev
            && s.join_inflight.got_confirm_joiner)
          || pending
          || (s.have_token && s.joined && not s.join_inflight.active))
        ≡ true)
    → set_select_timeout s pending now old ≡ at_once
unfolding set_select_timeout
work_at_once s pending now old h = ground arith

-- The microseconds that stood in the timeout before are kept exactly if the node is a member
-- without the token, without a join in flight or pending, without an acknowledgement to resend
-- and without a stored message; in every other case they are set to 0. The clock is not at 0,
-- and the microseconds that stood there are not 0.
pub stale_usec_iff :
    (s : RingState) (pending : Bool) (now : ℕ) (old : Timeout)
    → 0 < now
    → old.usec ≢ 0
    → ((set_select_timeout s pending now old).usec ≢ 0) ↔ (
        (s.joined ≡ true)
        × (s.have_token ≡ false)
        × (s.join_inflight.active ≡ false)
        × (s.join_state.count ≡ 0)
        × ((s.ack_sender.active && not s.ack_sender.got_ack_ack) ≡ false)
        × (pending ≡ false))
unfolding set_select_timeout next_deadline sooner
stale_usec_iff s pending now old h k =
    let d = deadline_bounds s now h in (λ u. ground arith, λ i. ground arith)
