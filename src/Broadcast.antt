-- ===== src/Broadcast.antt =====
-- The handler of the broadcast socket: `handle_broadcast` of src/broadcast.c.
pub mod Requests
pub mod Commits
mod Examples
use psi_project.Base.{
  ℕ, zero, suc, ◌+◌, ◌-◌, Bool, true, false, ◌&&◌, ◌||◌, not, Option, none, some, List, [], ◌∷◌,
  ltb, leb, ◌==◌, if◌then◌else◌, u32, Rc, ok, err, length, ◌++◌, replicate,
}
use psi_project.Cstr.{Name, copy_name, same_name, strncmp, terminate, name_size}
use psi_project.Join.{
  JoinState, JoinRequest, add_pending_join, join_state_is_completed, drop_oldest_pending_joins,
  join_state_mark_completed_and_prune_pending, remove_pending_join, join_state_record_completed,
}
use psi_project.Node.{RingState}
use psi_project.Wire.{
  RequestWire, CommitWire, join_magic, join_request, join_commit, header_size, request_size,
  commit_size, accept_size, get_header, decode_request, decode_commit,
}
use psi_project.Link.{Link}

-- The buffer, zeroed before the read, of JOIN_MAX_MSG_SIZE bytes.
abbrev pub in_buffer : List ℕ → List ℕ
in_buffer bytes = bytes ++ replicate (accept_size - length bytes) 0

-- The request in host order: the name is cut at 31 bytes, then copied.
unfoldable pub request_host : RequestWire → JoinRequest
request_host wire = record {
  request_id = wire.header.request_id;
  node_name = copy_name (terminate name_size wire.node_name);
  unicast_port = wire.unicast_port;
}

-- A join request that is neither the node's own, nor in flight, nor completed is added to the pending
-- joins; the result of `add_pending_join` is only logged. `now` is the clock of that call.
unfoldable pub handle_join_request : RingState → RequestWire → ℕ → ℕ → RingState
unfolding request_host strncmp
handle_join_request s wire ip now =
    let request = request_host wire in
    if same_name (terminate name_size wire.node_name) s.config.current.node_name
    then s
    else if s.join_inflight.active && same_name s.join_inflight.joiner.node_name request.node_name
    then s
    else if join_state_is_completed s.join_state request.node_name
    then s
    else record s { join_state = (add_pending_join s.join_state request ip now).0 }

-- A newer topology clears the pending joins.
unfoldable pub adopt_topology : RingState → ℕ → RingState
adopt_topology s topo =
    if ltb s.last_seen_topo_version topo
    then record s {
      last_seen_topo_version = topo;
      join_state =
          if ltb 0 s.join_state.count
          then (drop_oldest_pending_joins s.join_state s.join_state.count).0
          else s.join_state;
    }
    else s

-- The commit of the join that is in flight here completes it.
unfoldable pub finish_inflight : RingState → ℕ → RingState
finish_inflight s req =
    let joiner = s.join_inflight.joiner in
    if s.join_inflight.active && s.join_inflight.request_id == req
    then record s {
      config = record (s.config) {
        prev = record (s.config.prev) {
          node_name = copy_name joiner.node_name;
          unicast_port = joiner.unicast_port;
        };
      };
      join_state =
          join_state_record_completed (remove_pending_join s.join_state joiner.node_name).0
            joiner.node_name joiner.request_id;
      join_inflight = record (s.join_inflight) {
        active = false;
        got_confirm_prev = false;
        got_confirm_joiner = false;
        retries = 0;
      };
      token_in = record (s.token_in) { topo_version = s.last_seen_topo_version };
    }
    else s

unfoldable pub stop_ack : RingState → ℕ → RingState
stop_ack s req =
    if s.ack_sender.active && s.ack_sender.request_id == req
    then record s { ack_sender = record (s.ack_sender) { active = false; got_ack_ack = true } }
    else s

unfoldable pub handle_join_commit : RingState → CommitWire → RingState
handle_join_commit s wire =
    let req = wire.header.request_id in
    let marked = record s {
      join_state =
          join_state_mark_completed_and_prune_pending s.join_state
            (terminate name_size wire.new_name) req;
    } in
    stop_ack (finish_inflight (adopt_topology marked wire.topo_version) req) req

-- What a received datagram does; `now` is for an entry that is written.
unfoldable pub broadcast_message : RingState → List ℕ → ℕ → ℕ → RingState
broadcast_message s bytes ip now =
    let n = length bytes in
    let buffer = in_buffer bytes in
    let header = get_header buffer in
    if ltb n header_size
    then s
    else if not (header.magic == join_magic)
    then s
    else if header.type == join_request
    then if not (n == request_size) then s else handle_join_request s (decode_request buffer) ip now
    else if header.type == join_commit
    then if not (n == commit_size) then s else handle_join_commit s (decode_commit buffer)
    else s

module _ {W : Type 0} (net : Link W) where
  -- The clock is read for every datagram here, in the source only where an entry is written.
  unfoldable pub handle_broadcast : RingState → W → Rc × RingState × W
  handle_broadcast s w =
      let (got, w1) = net.recv_broadcast w in
      elim got [
        | none ↦ (err, s, w1)
        | some (bytes, ip) ↦
            let (now, w2) = net.time w1 in (ok, broadcast_message s bytes ip now, w2)
      ]
