-- ===== src/Cluster/Examples.antt =====
-- A node that starts and takes a turn beside another one, on layers that bring no messages.
use psi_project.Base.{
  ℕ, zero, suc, ◌≡◌, refl, Bool, true, false, Option, some, List, [], ◌∷◌, get_elem?,
}
use psi_project.Broadcast.{broadcast_message, handle_join_request}
use psi_project.JoinFsm.{join_fsm_start_inflight, request_bytes}
use psi_project.Wire.{decode_request, encode_request, get_header}
use psi_project.Cstr.{copy_name, terminate}
use psi_project.Join.{
  add_pending_join, join_state_is_completed, pop_oldest_pending_join, prune_joins,
}
use psi_project.Ring.{ring_on_token}
use psi_project.Node.{RouteConfig, RingState, zero_route}
use psi_project.Link.{Link, Timeout}
use psi_project.Deadline.{at_once}
use psi_project.Program.{ring_begin}
use psi_project.Ring.{
  init_join_request_if_needed, maybe_send_initial_token, ring_round, join_ack_sender_tick,
  after_select, handle_unicast_if_ready, unicast_loop, unicast_pass, finish_round,
  handle_broadcast_if_ready, handle_cli_if_ready, handle_token_if_ready,
}
use psi_project.JoinFsm.{join_fsm_request_tick, join_fsm_inflight_tick, join_fsm_maybe_complete}
use psi_project.Broadcast.{handle_broadcast}
use psi_project.Node.{init_ring_state}
use psi_project.Samples.{route, name_p, name_j, name_x, node, calm}
use psi_project.Cluster.{Place, Cluster, stay, all_absent, running}
use psi_project.Cluster.Schedule.{advance, run, run-Steps}
use psi_project.Base.{◌⊎◌}
use psi_project.Cluster.Members.{node_kept}

abbrev nets : ℕ → Link ℕ
nets i = calm

-- The first node is a ring of its own, the others are to join.
abbrev configs : ℕ → RouteConfig × Bool
configs zero = let p = route name_p 5001 in (record { current = p; prev = p; next = p }, true)
configs (suc (suc i)) =
    (record { current = route name_x 5003; prev = zero_route; next = zero_route }, false)
configs (suc zero) =
    (record { current = route name_j 5002; prev = zero_route; next = zero_route }, false)

abbrev off : Cluster ℕ
off = record { places = all_absent (true ∷ false ∷ false ∷ []); world = 0 }

abbrev after : List ℕ → Cluster ℕ
after is = run nets configs 10 is off

abbrev state_of : Option Place → RingState
state_of (some (running s t)) = s
state_of _ = node zero_route zero_route zero_route

abbrev timeout_of : Option Place → Timeout
timeout_of (some (running s t)) = t
timeout_of _ = at_once

abbrev booted : Cluster ℕ
booted = after (0 ∷ 1 ∷ [])

abbrev later : Cluster ℕ
later = run nets configs 10 (0 ∷ []) booted

abbrev later_state : RingState
later_state = state_of (get_elem? later.places 0)

abbrev sleeping : Timeout
sleeping = timeout_of (get_elem? later.places 0)

later_state_runs : get_elem? later.places 0 ≡ some (running later_state sleeping)
unfolding run advance ring_begin init_join_request_if_needed join_fsm_request_tick init_ring_state
    maybe_send_initial_token ring_round join_ack_sender_tick after_select join_fsm_inflight_tick
    join_fsm_maybe_complete handle_unicast_if_ready unicast_loop unicast_pass finish_round
    handle_broadcast_if_ready handle_broadcast handle_cli_if_ready handle_token_if_ready
    broadcast_message request_bytes encode_request copy_name get_header handle_join_request
    terminate decode_request join_state_is_completed prune_joins add_pending_join
    pop_oldest_pending_join join_fsm_start_inflight ring_on_token
later_state_runs = refl

abbrev starter : RingState
starter = state_of (get_elem? booted.places 0)

abbrev waking : Timeout
waking = timeout_of (get_elem? booted.places 0)

starter_runs : get_elem? booted.places 0 ≡ some (running starter waking)
unfolding run advance ring_begin init_join_request_if_needed join_fsm_request_tick init_ring_state
    maybe_send_initial_token ring_round join_ack_sender_tick after_select join_fsm_inflight_tick
    join_fsm_maybe_complete handle_unicast_if_ready unicast_loop unicast_pass finish_round
    handle_broadcast_if_ready handle_broadcast handle_cli_if_ready handle_token_if_ready
    broadcast_message request_bytes encode_request copy_name get_header handle_join_request
    terminate decode_request join_state_is_completed prune_joins add_pending_join
    pop_oldest_pending_join join_fsm_start_inflight ring_on_token
starter_runs = refl

node_kept_example :
    (later_state.config.current ≡ starter.config.current)
    × ((starter.joined ≡ false) ⊎ (later_state.joined ≡ true))
node_kept_example =
    node_kept nets booted later 0 starter later_state waking sleeping
      (run-Steps nets configs 10 (0 ∷ []) booted booted stay) starter_runs later_state_runs
