-- ===== src/Ring/Invariant.antt =====
-- The invariant of a node, and the handlers of src/ring.c, src/join_fsm.c, src/unicast_dispatch.c and
-- src/broadcast.c against it.
use psi_project.Base.{ℕ, ◌≤◌, ◌≡◌, refl, Bool, true, false, List, arith, Option-cases, inl, inr}
use psi_project.Cstr.{Name, terminate, name_size}
use psi_project.Join.{
  JoinState, PendingJoin, drop_oldest_pending_joins, join_state_mark_completed_and_prune_pending,
}
use psi_project.Join.Invariant
use psi_project.Join.Invariant.{IsValid}
use psi_project.Node.{RingState, RouteConfig, init_ring_state}
use psi_project.Wire.{
  UnicastMsg, AcceptWire, RequestWire, CommitWire, decode_accept, decode_ack, decode_request,
  decode_commit,
}
use psi_project.Link.{Link}
use psi_project.JoinFsm.{
  join_fsm_request_tick, join_fsm_start_inflight, join_fsm_maybe_complete, join_fsm_inflight_tick,
}
use psi_project.Dispatch.{
  handle_token_unicast, apply_accept_if_relevant, handle_join_accept_u, handle_join_ack_u,
  handle_join_ack_ack_u, unicast_dispatch_message, confirm, host_accept,
}
use psi_project.Broadcast.{
  handle_join_request, handle_join_commit, broadcast_message, handle_broadcast, request_host,
  in_buffer, adopt_topology, finish_inflight, stop_ack,
}

pub record Inv (s : RingState) : Type 0 where
  pub tables : IsValid s.join_state
  pub request_retries : s.join_request_retries ≤ 65536
  pub accept_retries : s.join_inflight.retries ≤ 30
  pub ack_retries : s.ack_sender.retries ≤ 30
  -- A join is in flight only at a member of the ring that holds the token.
  pub flight_has_token : s.join_inflight.active ≡ true → (s.joined ≡ true) × (s.have_token ≡ true)
  -- No confirmation outlives its join.
  pub flags_clear :
      s.join_inflight.active ≡ false
      → (s.join_inflight.got_confirm_prev ≡ false) × (s.join_inflight.got_confirm_joiner ≡ false)

pub init-Inv : (c : RouteConfig) (joined : Bool) → Inv (init_ring_state c joined)
unfolding init_ring_state
init-Inv c joined = record {
  tables = Invariant.empty-IsValid;
  request_retries = omega arith;
  accept_retries = omega arith;
  ack_retries = omega arith;
  flight_has_token = λ e. cc;
  flags_clear = λ _. (refl, refl);
}

-- No other law reads the tables.
pub with_tables :
    {s : RingState} {j : JoinState} → Inv s → IsValid j → Inv (record s { join_state = j })
with_tables v t = record {
  tables = t;
  request_retries = v.request_retries;
  accept_retries = v.accept_retries;
  ack_retries = v.ack_retries;
  flight_has_token = v.flight_has_token;
  flags_clear = v.flags_clear;
}

pub start_inflight-Inv :
    {s : RingState} (p : PendingJoin)
    → s.joined ≡ true
    → s.have_token ≡ true
    → Inv s
    → Inv (join_fsm_start_inflight s p)
unfolding join_fsm_start_inflight
start_inflight-Inv p j t v = ground arith

pub token-Inv : {s : RingState} (msg : UnicastMsg) → Inv s → Inv (handle_token_unicast s msg)
unfolding handle_token_unicast
token-Inv {s} msg v =
    let once = Invariant.drop-IsValid s.join_state.count v.tables in
    ground (
      arith,
      once,
      Invariant.drop-IsValid (drop_oldest_pending_joins s.join_state s.join_state.count).0.count
          once,
    )

pub apply_accept-Inv :
    {s : RingState} (a : AcceptWire) → Inv s → Inv (apply_accept_if_relevant s a).0
unfolding apply_accept_if_relevant
apply_accept-Inv a v = ground arith

pub ack_ack-Inv : {s : RingState} (msg : UnicastMsg) → Inv s → Inv (handle_join_ack_ack_u s msg)
unfolding handle_join_ack_ack_u
ack_ack-Inv msg v = ground arith

confirm-Inv : {s : RingState} (n : Name) → s.join_inflight.active ≡ true → Inv s → Inv (confirm s n)
unfolding confirm
confirm-Inv n a v = ground arith

request-Inv :
    {s : RingState} (m : RequestWire) (ip now : ℕ) → Inv s → Inv (handle_join_request s m ip now)
unfolding handle_join_request
request-Inv {s} m ip now v = ground (arith, Invariant.add-IsValid v.tables (request_host m) ip now)

adopt-Inv : {s : RingState} (topo : ℕ) → Inv s → Inv (adopt_topology s topo)
unfolding adopt_topology
adopt-Inv {s} topo v = ground (arith, Invariant.drop-IsValid s.join_state.count v.tables)

finish-Inv : {s : RingState} (req : ℕ) → Inv s → Inv (finish_inflight s req)
unfolding finish_inflight
finish-Inv {s} req v =
    let joiner = s.join_inflight.joiner in
    let removed = Invariant.remove-IsValid v.tables joiner.node_name in
    ground (arith, Invariant.record-IsValid joiner.node_name joiner.request_id removed)

stop-Inv : {s : RingState} (req : ℕ) → Inv s → Inv (stop_ack s req)
unfolding stop_ack
stop-Inv req v = ground arith

commit-Inv : {s : RingState} (m : CommitWire) → Inv s → Inv (handle_join_commit s m)
unfolding handle_join_commit
commit-Inv {s} m v =
    let req = m.header.request_id in
    let marked = Invariant.mark-IsValid (terminate name_size m.new_name) req v.tables in
    stop-Inv req (finish-Inv req (adopt-Inv m.topo_version (with_tables v marked)))

pub broadcast_message-Inv :
    {s : RingState} (bytes : List ℕ) (ip now : ℕ) → Inv s → Inv (broadcast_message s bytes ip now)
unfolding broadcast_message
broadcast_message-Inv bytes ip now v = ground (
  arith,
  request-Inv (decode_request (in_buffer bytes)) ip now v,
  commit-Inv (decode_commit (in_buffer bytes)) v,
)

module _ {W : Type 0} (net : Link W) where
  pub handle_broadcast-Inv : {s : RingState} (w : W) → Inv s → Inv (handle_broadcast net s w).1
  unfolding handle_broadcast
  handle_broadcast-Inv {s} w v = elim (Option-cases (net.recv_broadcast w).0) [
    | inl e ↦ rw (e, handle_broadcast) v
    | inr ((bytes, ip), e) ↦ rw (e, handle_broadcast) (broadcast_message-Inv bytes ip _ v)
  ]

  pub request_tick-Inv : {s : RingState} (w : W) → Inv s → Inv (join_fsm_request_tick net s w).1
  unfolding join_fsm_request_tick
  request_tick-Inv {s} w v = ground arith

  pub maybe_complete-Inv : {s : RingState} (w : W) → Inv s → Inv (join_fsm_maybe_complete net s w).0
  unfolding join_fsm_maybe_complete
  maybe_complete-Inv {s} w v =
      let joiner = s.join_inflight.joiner in
      let removed = Invariant.remove-IsValid v.tables joiner.node_name in
      ground (arith, Invariant.record-IsValid joiner.node_name joiner.request_id removed)

  pub inflight_tick-Inv : {s : RingState} (w : W) → Inv s → Inv (join_fsm_inflight_tick net s w).1
  unfolding join_fsm_inflight_tick
  inflight_tick-Inv {s} w v = ground (arith, maybe_complete-Inv w v)

  accept_u-Inv :
      {s : RingState} (msg : UnicastMsg) (w : W) → Inv s → Inv (handle_join_accept_u net s msg w).1
  unfolding handle_join_accept_u
  accept_u-Inv {s} msg w v =
      let a = host_accept (decode_accept msg.payload) in
      let marked = Invariant.mark-IsValid a.new_name a.header.request_id v.tables in
      let m : RingState = record s {
        join_state =
            join_state_mark_completed_and_prune_pending s.join_state a.new_name a.header.request_id;
      } in
      ground (arith, apply_accept-Inv {s = m} a (with_tables v marked))

  ack_u-Inv :
      {s : RingState} (msg : UnicastMsg) (w : W) → Inv s → Inv (handle_join_ack_u net s msg w).1
  unfolding handle_join_ack_u
  ack_u-Inv {s} msg w v =
      let from_name = terminate name_size (decode_ack msg.payload).name in
      ground (arith, confirm-Inv {s = s} from_name, maybe_complete-Inv {s = confirm s from_name} w)

  pub dispatch-Inv :
      {s : RingState} (msg : UnicastMsg) (w : W)
      → Inv s
      → Inv (unicast_dispatch_message net s msg w).1
  unfolding unicast_dispatch_message
  dispatch-Inv msg w v =
      ground (arith, token-Inv msg v, accept_u-Inv msg w v, ack_u-Inv msg w v, ack_ack-Inv msg v)
