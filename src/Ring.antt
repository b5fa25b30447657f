-- ===== src/Ring.antt =====
-- The node's loop: src/ring.c. A round of `ring_run` is a function of the state and the world; what
-- select answers is part of the world.
pub mod Invariant
pub mod Tokens
pub mod Timeouts
pub mod Handoff
pub mod Rounds
pub mod Stops
pub mod Preserved
pub mod Identity
mod Examples
use psi_project.Base.{
  ℕ, zero, suc, ◌+◌, ◌-◌, Bool, true, false, ◌&&◌, ◌||◌, not, Option, none, some, List, [], ◌∷◌,
  ltb, leb, ◌==◌, if◌then◌else◌, u32, Rc, ok, err,
}
use psi_project.Cstr.{Name, copy_name, strncmp, strcmp}
use psi_project.Join.{prune_joins, pop_oldest_pending_join, no_name}
use psi_project.Node.{Route, RingState, RouteConfig, Token, zero_token, no_text, init_ring_state}
use psi_project.Wire.{
  UnicastMsg, umsg_token, umsg_join_ack_u, token_size, ack_size, encode_token, unicast_msg,
}
use psi_project.Link.{
  Link, Received, message, nothing, failed, Timeout, Selected, ready, interrupted, broken,
}
use psi_project.JoinFsm.{
  too_soon, join_accept_ack_timeout_usec, join_accept_ack_max_attempts, join_request_timeout_s,
  join_accept_timeout_s, join_fsm_request_tick, join_fsm_start_inflight, join_fsm_maybe_complete,
  join_fsm_inflight_tick,
}
use psi_project.Dispatch.{ack_message, coord_route, unicast_dispatch_message}
use psi_project.Broadcast.{handle_broadcast}
use psi_project.Cli.{cli_handle_read}
use psi_project.Deadline.{join_ack_resend_s, set_select_timeout}

abbrev pub join_ack_max_retries : ℕ
join_ack_max_retries = 30

abbrev pub join_pending_ttl_s : ℕ
join_pending_ttl_s = 200

abbrev pub token_ack_timeout_usec : ℕ
token_ack_timeout_usec = 2500000

-- 0: without a limit.
abbrev pub token_ack_max_attempts : ℕ
token_ack_max_attempts = 0

abbrev emptied : Token → Token
emptied t = record t { is_empty = true; text = no_text; sender = no_name; receiver = no_name }

-- The token with a message for this node taken out.
unfoldable pub delivered : RingState → Token
unfolding strncmp
delivered s =
    if s.token_in.is_empty
    then s.token_in
    else if strcmp s.token_in.receiver s.config.current.node_name
    then emptied s.token_in
    else s.token_in

-- The token that `ring_on_token` sends on: an empty one takes the message from the command line.
unfoldable pub outgoing : RingState → Token
unfolding delivered
outgoing s =
    let out = delivered s in
    if s.have_cli_pending && out.is_empty
    then record (s.cli_pending) { topo_version = s.last_seen_topo_version }
    else out

unfoldable pub take_cli : RingState → RingState
unfolding delivered
take_cli s =
    if s.have_cli_pending && (delivered s).is_empty
    then record s { have_cli_pending = false; cli_pending = emptied s.cli_pending }
    else s

unfoldable pub token_message : Token → UnicastMsg
token_message t = unicast_msg umsg_token token_size (encode_token t)

-- `maybe_send_initial_token`; the argument says whether SHOULD_START is set.
unfoldable pub maybe_send_initial_token : Bool → RingState → RingState
maybe_send_initial_token should_start s =
    if not should_start || not s.joined then s else if s.have_token then s else record s {
      token_in = record zero_token { is_empty = true; topo_version = s.last_seen_topo_version };
      have_token = true;
    }

-- What a round of the loop leaves: the next round, or the end of `ring_run` with its result.
pub data Next (W : Type 0) : Type 0 where
  again : RingState → Timeout → W → Next W
  stop : Rc → RingState → W → Next W

module _ {W : Type 0} (net : Link W) where
  unfoldable pub ring_on_token : RingState → W → Rc × RingState × W
  unfolding take_cli
  ring_on_token s w =
      let kept = take_cli s in
      let (sent, w1) =
        net.send_limited w (token_message (outgoing s)) s.config.next token_ack_timeout_usec
          token_ack_max_attempts in
      elim sent [
        | err ↦ (ok, kept, w1)
        | ok ↦ (ok, record kept { have_token = false; token_in = zero_token }, w1)
      ]

  unfoldable pub join_ack_sender_tick : RingState → W → Rc × RingState × W
  join_ack_sender_tick s w =
      let sender = s.ack_sender in
      let (now, w1) = net.time w in
      let w2 =
        (net.send_limited w1
          (ack_message umsg_join_ack_u sender.request_id s.config.current.node_name)
          (coord_route sender.coord_name sender.coord_unicast_port) join_accept_ack_timeout_usec
          join_accept_ack_max_attempts).1 in
      let off = record s { ack_sender = record sender { active = false } } in
      if not sender.active
      then (ok, s, w)
      else if sender.got_ack_ack
      then (ok, off, w)
      else if too_soon sender.last_sent now join_ack_resend_s
      then (ok, s, w1)
      else if leb join_ack_max_retries sender.retries
      then (ok, off, w1)
      else (
        ok,
        record s { ack_sender = record sender { last_sent = now; retries = sender.retries + 1 } },
        w2,
      )

  -- `init_join_request_if_needed`, with the id that `gen_request_id` draws.
  unfoldable pub init_join_request_if_needed : ℕ → RingState → W → Rc × RingState × W
  init_join_request_if_needed id s w =
      if s.joined
      then (ok, s, w)
      else join_fsm_request_tick net
          (record s { join_request_id = id; join_request_last_sent = 0; join_request_retries = 0 })
          w

  unfoldable pub handle_broadcast_if_ready : Bool → RingState → W → Rc × RingState × W
  handle_broadcast_if_ready is_set s w = if not is_set then (ok, s, w) else handle_broadcast net s w

  unfoldable pub handle_cli_if_ready : Bool → RingState → W → Rc × RingState × W
  handle_cli_if_ready is_set s w =
      let (rc, token, w1) = cli_handle_read net s.cli_pending w in
      if not is_set || not s.token_in.is_empty then (ok, s, w) else elim rc [
        | err ↦ (err, record s { cli_pending = token }, w1)
        | ok ↦ (ok, record s { cli_pending = token; have_cli_pending = true }, w1)
      ]

  -- One pass of the `do` loop: `none` for a `break` without error.
  unfoldable pub unicast_pass : RingState → W → Option (Rc × RingState) × W
  unicast_pass s w =
      let (got, w1) = net.recv w in
      elim got [
        | nothing ↦ (none, w1)
        | failed ↦ (some (err, s), w1)
        | message msg ↦
            let (rc, s1, w2) = unicast_dispatch_message net s msg w1 in
            elim rc [
              | err ↦ (some (err, s1), w2)
              | ok ↦ let (s2, w3) = join_fsm_maybe_complete net s1 w2 in (some (ok, s2), w3)
            ]
      ]

  -- The `do … while (rudp_has_pending ())` loop; `none` if the fuel runs out.
  unfoldable pub unicast_loop : ℕ → RingState → W → Option (Rc × RingState × W)
  unicast_loop zero s w = none
  unicast_loop (suc fuel) s w =
      let (pass, w1) = unicast_pass s w in
      elim pass [
        | none ↦ some (ok, s, w1)
        | some (err, s1) ↦ some (err, s1, w1)
        | some (ok, s1) ↦ elim (net.has_pending w1) [
          | true ↦ unicast_loop fuel s1 w1
          | false ↦ some (ok, s1, w1)
        ]
      ]

  unfoldable pub handle_unicast_if_ready : ℕ → Bool → RingState → W → Option (Rc × RingState × W)
  handle_unicast_if_ready fuel is_set s w =
      if not (net.has_pending w) && not is_set then some (ok, s, w) else unicast_loop fuel s w

  unfoldable pub handle_token_if_ready : RingState → W → Rc × RingState × W
  handle_token_if_ready s w =
      let (join_state, popped) = pop_oldest_pending_join s.join_state in
      let s1 = record s { join_state = join_state } in
      if not s.joined || not s.have_token
      then (ok, s, w)
      else if s.join_inflight.active
      then (ok, s, w)
      else if ltb 0 s.join_state.count
      then elim popped [
        | none ↦ (ok, s1, w)
        | some pj ↦ join_fsm_inflight_tick net (join_fsm_start_inflight s1 pj) w
      ]
      else ring_on_token s w

  -- What follows the unicast handler in a round.
  unfoldable pub finish_round : Bool → Bool → RingState → Timeout → W → Next W
  finish_round bc cli s timeout w =
      let (s1, w1) = join_fsm_maybe_complete net s w in
      let (rc2, s2, w2) = handle_broadcast_if_ready bc s1 w1 in
      let (rc3, s3, w3) = handle_cli_if_ready cli s2 w2 in
      let (rc4, s4, w4) = handle_token_if_ready s3 w3 in
      elim rc2 [
        | err ↦ stop ok s2 w2
        | ok ↦ elim rc3 [
          | err ↦ stop ok s3 w3
          | ok ↦ elim rc4 [ err ↦ stop ok s4 w4 | ok ↦ again s4 timeout w4 ]
        ]
      ]

  -- What follows select in a round: the two ticks come before its result is looked at.
  unfoldable pub after_select : ℕ → Selected → RingState → Timeout → W → Option (Next W)
  after_select fuel sel s timeout w =
      let (rc1, s1, w1) = join_fsm_request_tick net s w in
      let (rc2, s2, w2) = join_fsm_inflight_tick net s1 w1 in
      elim rc1 [
        | err ↦ some (stop ok s1 w1)
        | ok ↦ elim rc2 [
          | err ↦ some (stop ok s2 w2)
          | ok ↦ elim sel [
            | interrupted ↦ some (again s2 timeout w2)
            | broken ↦ some (stop err s2 w2)
            | ready uni bc cli ↦ elim (handle_unicast_if_ready fuel uni s2 w2) [
              | none ↦ none
              | some (err, s3, w3) ↦ some (stop ok s3 w3)
              | some (ok, s3, w3) ↦ some (finish_round bc cli s3 timeout w3)
            ]
          ]
        ]
      ]

  -- A round of the loop of `ring_run`; the fuel is that of the unicast loop. The clock is read before
  -- select in every round, in the source only where no case before it sets the timeout.
  unfoldable pub ring_round : ℕ → RingState → Timeout → W → Option (Next W)
  ring_round fuel s timeout w =
      let (rc, s1, w1) = join_ack_sender_tick s w in
      let (now, w2) = net.time w1 in
      let s2 = record s1 { join_state = prune_joins s1.join_state now join_pending_ttl_s } in
      let (now', w3) = net.time w2 in
      let timeout' = set_select_timeout s2 (net.has_pending w2) now' timeout in
      let (sel, left, w4) = net.select w3 timeout' in
      elim rc [ err ↦ some (stop ok s1 w1) | ok ↦ after_select fuel sel s2 left w4 ]
