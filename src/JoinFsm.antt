-- ===== src/JoinFsm.antt =====
-- The joining state machine: src/join_fsm.c, with the two senders of src/broadcast.c. The node that
-- holds the token sends JOIN_ACCEPT to the joiner and to its predecessor until both have answered,
-- then takes the joiner as its predecessor and broadcasts JOIN_COMMIT.
pub mod Tick
pub mod Complete
mod Examples
use psi_project.Base.{
  ℕ, zero, suc, ◌+◌, ◌-◌, Bool, true, false, ◌&&◌, ◌||◌, not, Option, none, some, List, [], ◌∷◌,
  ltb, leb, ◌==◌, if◌then◌else◌, u32, Rc, ok, err,
}
use psi_project.Cstr.{Name, copy_name, same_name, strncmp}
use psi_project.Join.{PendingJoin, remove_pending_join, join_state_record_completed}
use psi_project.Node.{Route, RingState, zero_route}
use psi_project.Wire.{
  UnicastMsg, AcceptWire, JoinHeader, join_magic, join_request, join_accept, join_commit,
  umsg_join_accept_u, accept_size, encode_request, encode_commit, encode_accept, unicast_msg,
}
use psi_project.Link.{Link}

abbrev pub join_request_timeout_s : ℕ
join_request_timeout_s = 10

-- 1 << 16
abbrev pub join_request_retries_max : ℕ
join_request_retries_max = 65536

abbrev pub join_accept_timeout_s : ℕ
join_accept_timeout_s = 1

abbrev pub join_accept_retries_max : ℕ
join_accept_retries_max = 30

abbrev pub join_accept_ack_timeout_usec : ℕ
join_accept_ack_timeout_usec = 500000

abbrev pub join_accept_ack_max_attempts : ℕ
join_accept_ack_max_attempts = 2

-- `last != 0 && now - last < limit`. The difference of time_t is signed: it is negative where `now`
-- is before `last`, and so below the limit, as the truncated difference is.
abbrev pub too_soon : ℕ → ℕ → ℕ → Bool
too_soon last now limit = not (last == 0) && ltb (now - last) limit

abbrev pub header : ℕ → ℕ → JoinHeader
header type id = record { magic = join_magic; type = type; request_id = id }

unfoldable pub build_join_accept_host : RingState → AcceptWire
build_join_accept_host s = record {
  header = header join_accept s.join_inflight.request_id;
  new_name = copy_name s.join_inflight.joiner.node_name;
  new_unicast_port = s.join_inflight.joiner.unicast_port;
  before_name = copy_name s.config.current.node_name;
  before_unicast_port = s.config.current.unicast_port;
  prev_name = copy_name s.config.prev.node_name;
  prev_unicast_port = s.config.prev.unicast_port;
}

-- The message that `join_fsm_inflight_tick` fills from the host-order one.
unfoldable pub accept_message : AcceptWire → UnicastMsg
accept_message a = unicast_msg umsg_join_accept_u accept_size (
    encode_accept (record a {
      header = header join_accept a.header.request_id;
      new_name = copy_name a.new_name;
      before_name = copy_name a.before_name;
      prev_name = copy_name a.prev_name;
    }))

unfoldable pub join_fsm_start_inflight : RingState → PendingJoin → RingState
unfolding strncmp
join_fsm_start_inflight s pending =
    let expected = copy_name s.config.prev.node_name in
    record s {
      join_inflight = record {
        active = true;
        request_id = pending.request_id;
        joiner = pending;
        expected_prev_name = expected;
        got_confirm_prev = same_name expected s.config.current.node_name;
        got_confirm_joiner = false;
        last_sent = 0;
        retries = 0;
      };
    }

unfoldable pub commit_bytes : ℕ → Name → ℕ → List ℕ
commit_bytes id new_name topo =
    encode_commit (record {
      header = header join_commit id;
      new_name = copy_name new_name;
      topo_version = topo;
    })

unfoldable pub request_bytes : ℕ → Name → ℕ → List ℕ
request_bytes id name port =
    encode_request
      (record { header = header join_request id; node_name = copy_name name; unicast_port = port })

-- The state that `join_fsm_try_complete` leaves once both confirmations are in.
unfoldable pub completed_state : RingState → RingState
unfolding strncmp
completed_state s =
    let joiner = s.join_inflight.joiner in
    let prev_is_self = same_name s.join_inflight.expected_prev_name s.config.current.node_name in
    let name = copy_name joiner.node_name in
    let topo = u32 (s.last_seen_topo_version + 1) in
    let next = s.config.next in
    record s {
      config = record {
        current = s.config.current;
        prev = record (s.config.prev) { node_name = name; unicast_port = joiner.unicast_port };
        next =
            if prev_is_self
            then record next { node_name = name; unicast_port = joiner.unicast_port }
            else next;
      };
      last_seen_topo_version = topo;
      token_in = record (s.token_in) { topo_version = topo };
      join_state =
          join_state_record_completed (remove_pending_join s.join_state joiner.node_name).0
            joiner.node_name joiner.request_id;
      join_inflight = record (s.join_inflight) {
        active = false;
        got_confirm_prev = false;
        got_confirm_joiner = false;
        retries = 0;
      };
    }

-- A tick that sends: after JOIN_ACCEPT_RETRIES of them the count starts anew.
unfoldable pub ticked : RingState → ℕ → RingState
ticked s now =
    let spent = leb join_accept_retries_max s.join_inflight.retries in
    record s {
      join_inflight = record (s.join_inflight) {
        last_sent = now;
        retries = (if spent then 0 else s.join_inflight.retries) + 1;
      };
    }

unfoldable pub joiner_route : AcceptWire → Route
joiner_route a = record zero_route {
  node_name = copy_name a.new_name;
  unicast_port = a.new_unicast_port;
}

module _ {W : Type 0} (net : Link W) where
  unfoldable pub broadcast_send_join_request : W → ℕ → Name → ℕ → Rc × W
  broadcast_send_join_request w id name port = net.broadcast w (request_bytes id name port)

  unfoldable pub broadcast_send_join_commit : W → ℕ → Name → ℕ → Rc × W
  broadcast_send_join_commit w id new_name topo = net.broadcast w (commit_bytes id new_name topo)

  unfoldable pub join_fsm_request_tick : RingState → W → Rc × RingState × W
  unfolding broadcast_send_join_request
  join_fsm_request_tick s w =
      let (now, w1) = net.time w in
      let (sent, w2) =
        broadcast_send_join_request w1 s.join_request_id s.config.current.node_name
          s.config.current.unicast_port in
      if s.joined
      then (ok, s, w)
      else if too_soon s.join_request_last_sent now join_request_timeout_s
      then (ok, s, w1)
      else if leb join_request_retries_max s.join_request_retries
      then (err, s, w1)
      else elim sent [
        | err ↦ (err, s, w2)
        | ok ↦ (
          ok,
          record s {
            join_request_last_sent = now;
            join_request_retries = s.join_request_retries + 1;
          },
          w2,
        )
      ]

  -- `join_fsm_try_complete`, which `join_fsm_maybe_complete` passes on. The commit is sent from the
  -- state just left; its result is not looked at.
  unfoldable pub join_fsm_maybe_complete : RingState → W → RingState × W
  unfolding broadcast_send_join_commit completed_state
  join_fsm_maybe_complete s w =
      let flight = s.join_inflight in
      let s' = completed_state s in
      if not flight.active
      then (s, w)
      else if not (flight.got_confirm_prev && flight.got_confirm_joiner)
      then (s, w)
      else (
        s',
        (broadcast_send_join_commit w s'.join_inflight.request_id s'.join_inflight.joiner.node_name
            s'.last_seen_topo_version).1,
      )

  -- The accept to one of the two nodes, unless that node has confirmed. A failed send is retried by
  -- a later tick, so only the world comes out.
  unfoldable pub send_accept : Bool → UnicastMsg → Route → W → W
  send_accept confirmed msg to w =
      if confirmed
      then w
      else (net.send_limited w msg to join_accept_ack_timeout_usec join_accept_ack_max_attempts).1

  unfoldable pub send_accepts : RingState → W → W
  unfolding send_accept joiner_route
  send_accepts s w =
      let accept = build_join_accept_host s in
      let msg = accept_message accept in
      let w1 = send_accept s.join_inflight.got_confirm_joiner msg (joiner_route accept) w in
      send_accept s.join_inflight.got_confirm_prev msg s.config.prev w1

  unfoldable pub join_fsm_inflight_tick : RingState → W → Rc × RingState × W
  unfolding send_accepts ticked
  join_fsm_inflight_tick s w =
      let flight = s.join_inflight in
      let (done, w') = join_fsm_maybe_complete s w in
      let (now, w1) = net.time w in
      if not flight.active
      then (ok, s, w)
      else if flight.got_confirm_prev && flight.got_confirm_joiner
      then (ok, done, w')
      else if too_soon flight.last_sent now join_accept_timeout_s
      then (ok, s, w1)
      else (ok, ticked s now, send_accepts s w1)

  -- Declared for acknowledgements on the broadcast socket; `handle_broadcast` does not call it.
  unfoldable pub join_fsm_handle_ack_broadcast : RingState → ℕ → Name → W → RingState × W
  unfolding strncmp
  join_fsm_handle_ack_broadcast s id from_name w =
      let flight = s.join_inflight in
      let s' = record s {
        join_inflight = record flight {
          got_confirm_prev =
              same_name from_name flight.expected_prev_name || flight.got_confirm_prev;
          got_confirm_joiner =
              same_name from_name flight.joiner.node_name || flight.got_confirm_joiner;
        };
      } in
      if not flight.active
      then (s, w)
      else if not (id == flight.request_id)
      then (s, w)
      else join_fsm_maybe_complete s' w
