-- ===== src/Ring/Identity.antt =====
-- Who a node is, over the handlers and a round of src/ring.c: its own route, and whether it has
-- joined.
use psi_project.Base.{ℕ, ◌≤◌, ◌≡◌, ◌∙◌, Bool, List, arith, if◌then◌else◌, Option-cases, inl, inr}
use psi_project.Cstr.{Name, terminate, name_size}
use psi_project.Join.{pop_oldest_pending_join}
use psi_project.Node.{RingState}
use psi_project.Wire.{UnicastMsg, AcceptWire, CommitWire, decode_ack, decode_commit}
use psi_project.Link.{Link, Timeout}
use psi_project.JoinFsm.{
  join_fsm_request_tick, join_fsm_start_inflight, join_fsm_maybe_complete, join_fsm_inflight_tick,
  completed_state, ticked,
}
use psi_project.Dispatch.{
  handle_token_unicast, update_topology_on_token, clear_pending_joins_on_token,
  apply_accept_if_relevant, confirm, handle_join_accept_u, handle_join_ack_u, handle_join_ack_ack_u,
  unicast_dispatch_message,
}
use psi_project.Broadcast.{
  handle_join_request, handle_join_commit, adopt_topology, finish_inflight, stop_ack, in_buffer,
  broadcast_message, handle_broadcast,
}
use psi_project.Ring.{
  take_cli, ring_on_token, join_ack_sender_tick, handle_broadcast_if_ready, handle_cli_if_ready,
  handle_token_if_ready, ring_round,
}
use psi_project.Ring.Preserved.{InRound, Preserved, round-P}

-- 1 for a member.
abbrev pub member : RingState → ℕ
member s = if s.joined then 1 else 0

-- The same node, and a member still if it was one.
abbrev pub Same : RingState → RingState → Type 0
Same s t = (t.config.current ≡ s.config.current) × (member s ≤ member t)

token-Same : (s : RingState) (m : UnicastMsg) → Same s (handle_token_unicast s m)
unfolding handle_token_unicast update_topology_on_token clear_pending_joins_on_token
token-Same s m = ground arith

accept-Same : (s : RingState) (a : AcceptWire) → Same s (apply_accept_if_relevant s a).0
unfolding apply_accept_if_relevant
accept-Same s a = ground arith

ack_ack-Same : (s : RingState) (m : UnicastMsg) → Same s (handle_join_ack_ack_u s m)
unfolding handle_join_ack_ack_u
ack_ack-Same s m = ground arith

confirm-Same : (s : RingState) (n : Name) → Same s (confirm s n)
unfolding confirm
confirm-Same s n = ground arith

commit-Same : (s : RingState) (m : CommitWire) → Same s (handle_join_commit s m)
unfolding handle_join_commit stop_ack finish_inflight adopt_topology
commit-Same s m = ground arith

broadcast-Same :
    (s : RingState) (bytes : List ℕ) (ip now : ℕ) → Same s (broadcast_message s bytes ip now)
unfolding broadcast_message handle_join_request
broadcast-Same s bytes ip now = ground (arith, commit-Same s (decode_commit (in_buffer bytes)))

module _ {W : Type 0} (net : Link W) where
  complete-Same : (s : RingState) (w : W) → Same s (join_fsm_maybe_complete net s w).0
  unfolding join_fsm_maybe_complete completed_state
  complete-Same s w = ground arith

  tick-Same : (s : RingState) (w : W) → Same s (join_fsm_inflight_tick net s w).1
  unfolding join_fsm_inflight_tick ticked
  tick-Same s w = ground (arith, complete-Same s w)

  request-Same : (s : RingState) (w : W) → Same s (join_fsm_request_tick net s w).1
  unfolding join_fsm_request_tick
  request-Same s w = ground arith

  sender-Same : (s : RingState) (w : W) → Same s (join_ack_sender_tick net s w).1
  unfolding join_ack_sender_tick
  sender-Same s w = ground arith

  accept_u-Same :
      (s : RingState) (m : UnicastMsg) (w : W) → Same s (handle_join_accept_u net s m w).1
  unfolding handle_join_accept_u apply_accept_if_relevant
  accept_u-Same s m w = ground arith

  ack_u-Same : (s : RingState) (m : UnicastMsg) (w : W) → Same s (handle_join_ack_u net s m w).1
  unfolding handle_join_ack_u
  ack_u-Same s m w =
      let from_name = terminate name_size (decode_ack m.payload).name in
      ground (arith, confirm-Same s from_name, complete-Same (confirm s from_name) w)

  dispatch-Same :
      (s : RingState) (m : UnicastMsg) (w : W) → Same s (unicast_dispatch_message net s m w).1
  unfolding unicast_dispatch_message
  dispatch-Same s m w =
      ground (arith, token-Same s m, accept_u-Same s m w, ack_u-Same s m w, ack_ack-Same s m)

  heard-Same : (b : Bool) (s : RingState) (w : W) → Same s (handle_broadcast_if_ready net b s w).1
  unfolding handle_broadcast_if_ready handle_broadcast
  heard-Same b s w = elim (Option-cases (net.recv_broadcast w).0) [
    | inl e ↦ ground arith
    | inr ((bytes, ip), e) ↦
        ground (arith, broadcast-Same s bytes ip (net.time (net.recv_broadcast w).1).0)
  ]

  cli-Same : (b : Bool) (s : RingState) (w : W) → Same s (handle_cli_if_ready net b s w).1
  unfolding handle_cli_if_ready
  cli-Same b s w = ground arith

  on_token-Same : (s : RingState) (w : W) → Same s (handle_token_if_ready net s w).1
  unfolding handle_token_if_ready join_fsm_start_inflight ring_on_token take_cli
  on_token-Same s w = elim (Option-cases (pop_oldest_pending_join s.join_state).1) [
    | inl e ↦ ground arith
    | inr (p, e) ↦
        let s1 : RingState = record s { join_state = (pop_oldest_pending_join s.join_state).0 } in
        ground (arith, tick-Same (join_fsm_start_inflight s1 p) w)
  ]

Same-trans : (a b c : RingState) → Same a b → Same b c → Same a c
Same-trans a b c x y = (y.0 ∙ x.0, omega (arith, x.1, y.1))

module _ {W : Type 0} (net : Link W) (o : RingState) where
  Same-Preserved : Preserved net (λ s w. Same o s)
  Same-Preserved = record {
    time = λ s w h. h;
    select = λ s w t h. h;
    recv = λ s w h. h;
    prune = λ s w now h. h;
    ack_sender_tick =
        λ s w h. Same-trans o s (join_ack_sender_tick net s w).1 h (sender-Same net s w);
    request_tick =
        λ s w h. Same-trans o s (join_fsm_request_tick net s w).1 h (request-Same net s w);
    inflight_tick =
        λ s w h. Same-trans o s (join_fsm_inflight_tick net s w).1 h (tick-Same net s w);
    maybe_complete =
        λ s w h. Same-trans o s (join_fsm_maybe_complete net s w).0 h (complete-Same net s w);
    dispatch = λ s m w e h.
        Same-trans o s (unicast_dispatch_message net s m (net.recv w).1).1 h
          (dispatch-Same net s m (net.recv w).1);
    broadcast =
        λ b s w h. Same-trans o s (handle_broadcast_if_ready net b s w).1 h (heard-Same net b s w);
    cli = λ b s w h. Same-trans o s (handle_cli_if_ready net b s w).1 h (cli-Same net b s w);
    token = λ s w h. Same-trans o s (handle_token_if_ready net s w).1 h (on_token-Same net s w);
  }

  -- A round does not change a node's own route, and a member stays one.
  pub round-Same :
      (fuel : ℕ) (s : RingState) (t : Timeout) (w : W)
      → Same o s
      → InRound (λ s' w'. Same o s') (ring_round net fuel s t w)
  round-Same fuel s t w h = round-P net (λ s' w'. Same o s') Same-Preserved fuel s t w h
