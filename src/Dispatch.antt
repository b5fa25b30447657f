-- ===== src/Dispatch.antt =====
-- Messages over the reliable unicast: src/unicast_dispatch.c. Payloads are decoded from their bytes.
pub mod Tokens
pub mod Accept
pub mod Acks
mod Examples
use psi_project.Base.{
  ℕ, zero, suc, ◌+◌, ◌-◌, Bool, true, false, ◌&&◌, ◌||◌, not, Option, none, some, List, [], ◌∷◌,
  ltb, leb, ◌==◌, if◌then◌else◌, u32, Rc, ok, err, drop,
}
use psi_project.Cstr.{Name, copy_name, same_name, strncmp, terminate, name_size}
use psi_project.Join.{
  JoinState, drop_oldest_pending_joins, join_state_mark_completed_and_prune_pending,
}
use psi_project.Node.{Route, RingState, JoinAckSender, zero_route}
use psi_project.Wire.{
  UnicastMsg, AcceptWire, AckWire, join_magic, join_accept, umsg_token, umsg_join_accept_u,
  umsg_join_ack_u, umsg_join_ack_ack_u, accept_size, ack_size, token_size, decode_accept,
  decode_ack, decode_token, encode_ack, unicast_msg,
}
use psi_project.Link.{Link}
use psi_project.JoinFsm.{
  join_fsm_maybe_complete, join_accept_ack_timeout_usec, join_accept_ack_max_attempts,
}

abbrev pub join_ack_ack_send_count : ℕ
join_ack_ack_send_count = 3

unfoldable pub clear_pending_joins_on_token : RingState → RingState
clear_pending_joins_on_token s =
    if s.join_state.count == 0
    then s
    else record s { join_state = (drop_oldest_pending_joins s.join_state s.join_state.count).0 }

unfoldable pub update_topology_on_token : RingState → RingState × Bool
update_topology_on_token s =
    if leb s.token_in.topo_version s.last_seen_topo_version then (s, false) else (
      record s {
        join_state = (drop_oldest_pending_joins s.join_state s.join_state.count).0;
        last_seen_topo_version = s.token_in.topo_version;
      },
      true,
    )

unfoldable pub handle_token_unicast : RingState → UnicastMsg → RingState
unfolding update_topology_on_token clear_pending_joins_on_token
handle_token_unicast s msg =
    let s1 = record s { token_in = decode_token msg.payload } in
    let (s2, advanced) = update_topology_on_token s1 in
    if not (msg.payload_len == token_size)
    then s
    else if not s.joined
    then s1
    else record (if advanced then clear_pending_joins_on_token s2 else s2) { have_token = true }

-- The accept in host order; `header.magic` and `header.type` are the constants just tested.
unfoldable pub host_accept : AcceptWire → AcceptWire
host_accept wire = record wire {
  new_name = copy_name wire.new_name;
  before_name = copy_name wire.before_name;
  prev_name = copy_name wire.prev_name;
}

abbrev pub renamed : Route → Name → ℕ → Route
renamed r name port = record r { node_name = copy_name name; unicast_port = port }

unfoldable pub apply_accept_if_relevant : RingState → AcceptWire → RingState × Bool
unfolding strncmp
apply_accept_if_relevant s accept =
    let me = s.config.current.node_name in
    let as_joiner = record s {
      config = record (s.config) {
        prev = renamed s.config.prev accept.prev_name accept.prev_unicast_port;
        next = renamed s.config.next accept.before_name accept.before_unicast_port;
      };
      joined = true;
      join_request_last_sent = 0;
      join_request_retries = 0;
    } in
    let as_prev = record s {
      config = record (s.config) {
        next = renamed s.config.next accept.new_name accept.new_unicast_port;
      };
      joined = true;
    } in
    if same_name me accept.new_name
    then if s.joined
      then (s, false)
      else if not (accept.header.request_id == s.join_request_id)
      then (s, false)
      else (as_joiner, true)
    else if same_name me accept.prev_name
    then if not (same_name s.config.next.node_name accept.before_name)
      then (s, false)
      else (as_prev, true)
    else (s, false)

unfoldable pub ack_message : ℕ → ℕ → Name → UnicastMsg
ack_message type id name =
    unicast_msg type ack_size (encode_ack (record { request_id = id; name = copy_name name }))

unfoldable pub coord_route : Name → ℕ → Route
coord_route name port = renamed zero_route name port

-- The acknowledgement that has to reach the coordinator, not sent yet.
unfoldable pub ack_due : AcceptWire → JoinAckSender
ack_due accept = record {
  active = true;
  request_id = accept.header.request_id;
  coord_name = copy_name accept.before_name;
  coord_unicast_port = accept.before_unicast_port;
  last_sent = 0;
  retries = 0;
  got_ack_ack = false;
}

unfoldable pub handle_join_ack_ack_u : RingState → UnicastMsg → RingState
unfolding strncmp
handle_join_ack_ack_u s msg =
    let wire = decode_ack msg.payload in
    let to_name = terminate name_size wire.name in
    if not (msg.payload_len == ack_size)
    then s
    else if not (same_name to_name s.config.current.node_name)
    then s
    else if s.ack_sender.active && s.ack_sender.request_id == wire.request_id
    then record s { ack_sender = record (s.ack_sender) { got_ack_ack = true } }
    else s

-- The confirmations that a JOIN_ACK of `from_name` brings.
unfoldable pub confirm : RingState → Name → RingState
unfolding strncmp
confirm s from_name =
    let flight = s.join_inflight in
    record s {
      join_inflight = record flight {
        got_confirm_prev =
            (same_name from_name flight.expected_prev_name
              || same_name from_name s.config.prev.node_name)
            || flight.got_confirm_prev;
        got_confirm_joiner =
            same_name from_name flight.joiner.node_name || flight.got_confirm_joiner;
      };
    }

-- Where the JOIN_ACK_ACK goes: the joiner in flight, the predecessor, or nowhere.
unfoldable pub ack_ack_port : RingState → Name → Option ℕ
unfolding strncmp
ack_ack_port s from_name =
    if s.join_inflight.active && same_name from_name s.join_inflight.joiner.node_name
    then some s.join_inflight.joiner.unicast_port
    else if same_name from_name s.config.prev.node_name
    then some s.config.prev.unicast_port
    else none

module _ {W : Type 0} (net : Link W) where
  unfoldable pub send_times : ℕ → UnicastMsg → Route → W → W
  send_times zero msg to w = w
  send_times (suc n) msg to w =
      send_times n msg to (net.send_limited w msg to join_accept_ack_timeout_usec 1).1

  unfoldable pub handle_join_accept_u : RingState → UnicastMsg → W → Rc × RingState × W
  unfolding ack_due
  handle_join_accept_u s msg w =
      let wire = decode_accept msg.payload in
      let accept = host_accept wire in
      let marked = record s {
        join_state =
            join_state_mark_completed_and_prune_pending s.join_state accept.new_name
              accept.header.request_id;
      } in
      let (applied, did_apply) = apply_accept_if_relevant marked accept in
      let due = record applied { ack_sender = ack_due accept } in
      let (sent, w1) =
        net.send_limited w
          (ack_message umsg_join_ack_u accept.header.request_id s.config.current.node_name)
          (coord_route accept.before_name accept.before_unicast_port) join_accept_ack_timeout_usec
          join_accept_ack_max_attempts in
      let (now, w2) = net.time w1 in
      if not (msg.payload_len == accept_size)
      then (ok, s, w)
      else if not (wire.header.magic == join_magic && wire.header.type == join_accept)
      then (ok, s, w)
      else if not did_apply
      then (ok, applied, w)
      else elim sent [
        | err ↦ (ok, due, w1)
        | ok ↦ (
          ok,
          record due { ack_sender = record (ack_due accept) { last_sent = now; retries = 1 } },
          w2,
        )
      ]

  unfoldable pub handle_join_ack_u : RingState → UnicastMsg → W → Rc × RingState × W
  unfolding ack_ack_port
  handle_join_ack_u s msg w =
      let wire = decode_ack msg.payload in
      let from_name = terminate name_size wire.name in
      let (s1, w1) =
        if s.join_inflight.active && s.join_inflight.request_id == wire.request_id
        then join_fsm_maybe_complete net (confirm s from_name) w
        else (s, w) in
      let out = ack_message umsg_join_ack_ack_u wire.request_id from_name in
      if not (msg.payload_len == ack_size) then (ok, s, w) else elim (ack_ack_port s1 from_name) [
        | none ↦ (ok, s1, w1)
        | some port ↦
            (ok, s1, send_times join_ack_ack_send_count out (coord_route from_name port) w1)
      ]

  unfoldable pub unicast_dispatch_message : RingState → UnicastMsg → W → Rc × RingState × W
  unicast_dispatch_message s msg w =
      if msg.type == umsg_token
      then (ok, handle_token_unicast s msg, w)
      else if msg.type == umsg_join_accept_u
      then handle_join_accept_u s msg w
      else if msg.type == umsg_join_ack_u
      then handle_join_ack_u s msg w
      else if msg.type == umsg_join_ack_ack_u
      then (ok, handle_join_ack_ack_u s msg, w)
      else (ok, s, w)
