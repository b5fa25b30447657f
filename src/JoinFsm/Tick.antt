-- ===== src/JoinFsm/Tick.antt =====
-- The resend timers of src/join_fsm.c.
use psi_project.Base.{◌+◌, ◌<◌, ◌≤◌, ◌≡◌, ◌≢◌, ◌⊎◌, true, false, arith, ok, err}
use psi_project.Node.{RingState}
use psi_project.Link.{Link}
use psi_project.JoinFsm.{
  join_fsm_maybe_complete, completed_state, ticked, join_fsm_request_tick, join_fsm_inflight_tick,
  request_bytes,
}

module _ {W : Type 0} (net : Link W) (s : RingState) (w : W) where
  -- `join_fsm_request_tick` broadcasts at most one JOIN_REQUEST. It does so exactly if the node has
  -- not joined, at least 10 seconds have passed since the last one, and fewer than 65536 were sent;
  -- it fails exactly if one is due and the retries are used up or the send fails.
  pub request_tick_cases :
      let now = (net.time w).0 in
      let w1 = (net.time w).1 in
      let sent = net.broadcast w1 (
        request_bytes s.join_request_id s.config.current.node_name s.config.current.unicast_port) in
      let (rc, t, w') = join_fsm_request_tick net s w in
      ((s.joined ≡ true) × (rc ≡ ok) × (t ≡ s) × (w' ≡ w))
      ⊎ ((s.joined ≡ false)
          × (s.join_request_last_sent ≢ 0)
          × (now < s.join_request_last_sent + 10)
          × (rc ≡ ok)
          × (t ≡ s)
          × (w' ≡ w1))
      ⊎ ((s.joined ≡ false)
          × (65536 ≤ s.join_request_retries)
          × ((s.join_request_last_sent ≡ 0) ⊎ (s.join_request_last_sent + 10 ≤ now))
          × (rc ≡ err)
          × (t ≡ s)
          × (w' ≡ w1))
      ⊎ ((s.joined ≡ false)
          × (s.join_request_retries < 65536)
          × ((s.join_request_last_sent ≡ 0) ⊎ (s.join_request_last_sent + 10 ≤ now))
          × (w' ≡ sent.1)
          × (rc ≡ sent.0)
          × (((sent.0 ≡ ok)
                × (t ≡ record s {
                  join_request_last_sent = now;
                  join_request_retries = s.join_request_retries + 1;
                }))
              ⊎ ((sent.0 ≡ err) × (t ≡ s))))
  unfolding join_fsm_request_tick
  request_tick_cases = ground arith

  -- A tick does not take the token away.
  pub inflight_tick_keeps_token : (join_fsm_inflight_tick net s w).1.have_token ≡ s.have_token
  unfolding join_fsm_inflight_tick join_fsm_maybe_complete completed_state ticked
  inflight_tick_keeps_token = ground arith
