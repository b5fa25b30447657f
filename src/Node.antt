-- ===== src/Node.antt =====
-- The state of a node: src/include/ring.h, route.h and token.h, with `join_inflight_t` of join.h.
-- The three routes that `route_config_t` points to are distinct objects of `main` (src/core.c), so
-- they are held by value. Flags are Bool, times are seconds, the retry counters are plain numbers
-- (Ring/Invariant bounds them).
use psi_project.Base.{ℕ, Bool, false, List, replicate}
use psi_project.Cstr.{Name}
use psi_project.Join.{JoinState, PendingJoin, empty_join_state, no_pending, no_name}

pub record Route : Type 0 where
  pub node_name : Name
  pub unicast_port : ℕ
  pub broadcast_port : ℕ

pub record RouteConfig : Type 0 where
  pub current : Route
  pub prev : Route
  pub next : Route

pub record Token : Type 0 where
  pub text : List ℕ
  pub sender : Name
  pub receiver : Name
  pub topo_version : ℕ
  pub is_empty : Bool

pub record JoinInflight : Type 0 where
  pub active : Bool
  pub request_id : ℕ
  pub joiner : PendingJoin
  pub expected_prev_name : Name
  pub got_confirm_prev : Bool
  pub got_confirm_joiner : Bool
  pub last_sent : ℕ
  pub retries : ℕ

pub record JoinAckSender : Type 0 where
  pub active : Bool
  pub request_id : ℕ
  pub coord_name : Name
  pub coord_unicast_port : ℕ
  pub last_sent : ℕ
  pub retries : ℕ
  pub got_ack_ack : Bool

pub record RingState : Type 0 where
  pub config : RouteConfig
  pub joined : Bool
  pub last_seen_topo_version : ℕ
  pub join_state : JoinState
  pub join_inflight : JoinInflight
  pub ack_sender : JoinAckSender
  pub join_request_id : ℕ
  pub join_request_last_sent : ℕ
  pub join_request_retries : ℕ
  pub token_in : Token
  pub have_token : Bool
  pub cli_pending : Token
  pub have_cli_pending : Bool

-- The values that `{0}` gives; the false of `is_empty` is the zero of a bool.
abbrev pub no_text : List ℕ
no_text = replicate 256 0

abbrev pub zero_token : Token
zero_token = record {
  text = no_text;
  sender = no_name;
  receiver = no_name;
  topo_version = 0;
  is_empty = false;
}

abbrev pub zero_route : Route
zero_route = record { node_name = no_name; unicast_port = 0; broadcast_port = 0 }

abbrev pub zero_inflight : JoinInflight
zero_inflight = record {
  active = false;
  request_id = 0;
  joiner = no_pending;
  expected_prev_name = no_name;
  got_confirm_prev = false;
  got_confirm_joiner = false;
  last_sent = 0;
  retries = 0;
}

abbrev pub zero_ack_sender : JoinAckSender
zero_ack_sender = record {
  active = false;
  request_id = 0;
  coord_name = no_name;
  coord_unicast_port = 0;
  last_sent = 0;
  retries = 0;
  got_ack_ack = false;
}

-- `init_ring_state`. The fields `token_epoch` and `last_token_seen` are never read, and
-- `broadcast_socket` is a descriptor; the model leaves the three out.
unfoldable pub init_ring_state : RouteConfig → Bool → RingState
init_ring_state config joined = record {
  config = config;
  joined = joined;
  last_seen_topo_version = 0;
  join_state = empty_join_state;
  join_inflight = zero_inflight;
  ack_sender = zero_ack_sender;
  join_request_id = 0;
  join_request_last_sent = 0;
  join_request_retries = 0;
  token_in = zero_token;
  have_token = false;
  cli_pending = zero_token;
  have_cli_pending = false;
}
