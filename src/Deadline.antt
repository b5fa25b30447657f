-- ===== src/Deadline.antt =====
-- How long the node sleeps in select: set_select_timeout of src/ring.c.
use psi_project.Base.{◌||◌, ℕ, ◌+◌, ◌-◌, Bool, ◌&&◌, not, ltb, leb, u32, ◌==◌, if◌then◌else◌}
use psi_project.Node.{RingState}
use psi_project.Link.{Timeout}
use psi_project.JoinFsm.{join_request_timeout_s, join_accept_timeout_s}

abbrev pub select_timeout_s : ℕ
select_timeout_s = 10

abbrev pub join_ack_resend_s : ℕ
join_ack_resend_s = 1

-- A deadline of 0 means that there is none yet; each timer that runs goes through the same test,
--
--     if (due) { if (next == 0 || deadline < next) next = deadline; }
unfoldable pub sooner : Bool → ℕ → ℕ → ℕ
sooner due deadline next =
    if due then if next == 0 || ltb deadline next then deadline else next else next

-- `last == 0 ? now : last + after`
unfoldable pub resend_at : ℕ → ℕ → ℕ → ℕ
resend_at last now after = if last == 0 then now else last + after

unfoldable pub next_deadline : RingState → ℕ → ℕ
next_deadline s now =
    let flight = s.join_inflight in
    let sender = s.ack_sender in
    let d1 =
      if not s.joined then resend_at s.join_request_last_sent now join_request_timeout_s else 0 in
    let d2 =
      sooner (flight.active && not (flight.got_confirm_prev && flight.got_confirm_joiner))
        (resend_at flight.last_sent now join_accept_timeout_s) d1 in
    let d3 = sooner (ltb 0 s.join_state.count) (now + 1) d2 in
    sooner (sender.active && not sender.got_ack_ack)
      (resend_at sender.last_sent now join_ack_resend_s) d3

abbrev pub at_once : Timeout
at_once = record { sec = 0; usec = 0 }

-- `set_select_timeout` on the timeout left from before; the last case but two does not set `usec`.
-- The seconds to a deadline are cast to int: here they are 32 bits, a negative int from 2^31 on.
unfoldable pub set_select_timeout : RingState → Bool → ℕ → Timeout → Timeout
set_select_timeout s has_pending now old =
    let flight = s.join_inflight in
    let next = next_deadline s now in
    if flight.active && flight.got_confirm_prev && flight.got_confirm_joiner
    then at_once
    else if has_pending
    then at_once
    else if s.have_token && s.joined && not flight.active
    then at_once
    else if next == 0
    then record old { sec = select_timeout_s }
    else if leb next now
    then at_once
    else record { sec = u32 (next - now); usec = 0 }
