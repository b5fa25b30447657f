-- ===== src/Samples.antt =====
-- Nodes, messages and layers below the ring for the examples.
use psi_project.Base.{ℕ, ◌+◌, true, false, none, [], ◌∷◌, ok, err}
use psi_project.Cstr.{Name}
use psi_project.Join.{PendingJoin, empty_join_state}
use psi_project.Node.{Route, RingState, zero_token, zero_route, zero_inflight, zero_ack_sender}
use psi_project.Link.{Link, nothing, ready}

-- Four nodes, by the names "c", "p", "j" and "x".
abbrev pub name_c : Name
name_c = 99 ∷ []

abbrev pub name_p : Name
name_p = 112 ∷ []

abbrev pub name_j : Name
name_j = 106 ∷ []

abbrev pub name_x : Name
name_x = 120 ∷ []

abbrev pub route : Name → ℕ → Route
route n port = record { node_name = n; unicast_port = port; broadcast_port = 9000 }

abbrev pub node : Route → Route → Route → RingState
node prev current next = record {
  config = record { current = current; prev = prev; next = next };
  joined = true;
  last_seen_topo_version = 3;
  join_state = empty_join_state;
  join_inflight = zero_inflight;
  ack_sender = zero_ack_sender;
  join_request_id = 0;
  join_request_last_sent = 0;
  join_request_retries = 0;
  token_in = zero_token;
  have_token = false;
  cli_pending = zero_token;
  have_cli_pending = false;
}

abbrev pub joiner : PendingJoin
joiner = record {
  used = true;
  request_id = 77;
  node_name = name_j;
  unicast_port = 5003;
  ip = 10;
  last_seen = 90;
}

-- The coordinator "c" between "p" and "x", with "j" in flight and both confirmations in.
abbrev pub coordinator : RingState
coordinator = record (node (route name_p 5001) (route name_c 5002) (route name_x 5004)) {
  have_token = true;
  join_inflight = record {
    active = true;
    request_id = 77;
    joiner = joiner;
    expected_prev_name = name_p;
    got_confirm_prev = true;
    got_confirm_joiner = true;
    last_sent = 95;
    retries = 1;
  };
}

abbrev pub predecessor : RingState
predecessor = node (route name_x 5004) (route name_p 5001) (route name_c 5002)

abbrev pub newcomer : RingState
newcomer = record (node zero_route (route name_j 5003) zero_route) {
  joined = false;
  join_request_id = 77;
}

abbrev pub bystander : RingState
bystander = node (route name_c 5002) (route name_x 5004) (route name_p 5001)

-- Layers on which every send succeeds; the world counts the calls, and the clock starts at 100.
abbrev pub calm : Link ℕ
calm = record {
  time = λ w. (w + 100, w + 1);
  send_limited = λ w m r t a. (ok, w + 1);
  recv = λ w. (nothing, w + 1);
  has_pending = λ w. false;
  broadcast = λ w b. (ok, w + 1);
  recv_broadcast = λ w. (none, w + 1);
  cli_read = λ w. (none, w + 1);
  select = λ w t. (ready false false false, t, w + 1);
}

-- Layers on which every unicast fails.
abbrev pub cut_off : Link ℕ
cut_off = record calm { send_limited = λ w m r t a. (err, w + 1) }
