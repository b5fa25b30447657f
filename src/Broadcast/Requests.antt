-- ===== src/Broadcast/Requests.antt =====
-- JOIN_REQUEST at its receiver: the first case of `handle_broadcast` (src/broadcast.c).
use psi_project.Base.{ℕ, ◌-◌, ◌<◌, ◌^◌, ◌≡◌, ◌&&◌, ◌||◌, if◌then◌else◌, arith, length, replicate}
use psi_project.Cstr.{Name, copy_name, same_name}
use psi_project.Cstr.Laws.{length-copy_name, terminate-copy_name, copy_name_idem}
use psi_project.Join.{JoinRequest, add_pending_join, join_state_is_completed}
use psi_project.Node.{RingState}
use psi_project.Wire.{RequestWire, encode_request, join_request}
use psi_project.Wire.Laws.{
  FitsRequest, decode-encode_request, length-encode_request, get_header-encode_request,
}
use psi_project.JoinFsm.{request_bytes, header}
use psi_project.Broadcast.{handle_join_request, broadcast_message, request_host}

sent_FitsRequest :
    (id : ℕ) (name : Name) (port : ℕ)
    → id < 2 ^ 32
    → port < 2 ^ 16
    → FitsRequest (record {
      header = header join_request id;
      node_name = copy_name name;
      unicast_port = port;
    })
sent_FitsRequest id name port hi hp = record {
  header = record { magic = omega arith; type = omega arith; request_id = hi };
  node_name = length-copy_name name;
  unicast_port = hp;
}

abbrev pub asked : ℕ → Name → ℕ → JoinRequest
asked id name port = record { request_id = id; node_name = copy_name name; unicast_port = port }

-- The request that a node broadcasts arrives as it was meant: the receiver goes on with its id,
-- its name and its port, unless the name is its own, is in flight here, or has joined before.
-- The id and the port fit their widths.
pub receive_request :
    (s : RingState) (id : ℕ) (name : Name) (port ip now : ℕ)
    → id < 2 ^ 32
    → port < 2 ^ 16
    → broadcast_message s (request_bytes id name port) ip now ≡ (
        if same_name (copy_name name) s.config.current.node_name
          || (s.join_inflight.active && same_name s.join_inflight.joiner.node_name (copy_name name)
              || join_state_is_completed s.join_state (copy_name name))
        then s
        else record s {
          join_state = (add_pending_join s.join_state (asked id name port) ip now).0;
        })
unfolding broadcast_message handle_join_request request_bytes request_host
receive_request s id name port ip now hi hp =
    let fits = sent_FitsRequest id name port hi hp in
    let wire : RequestWire = record {
      header = header join_request id;
      node_name = copy_name name;
      unicast_port = port;
    } in
    let bytes = encode_request wire in
    let n = length-encode_request wire fits in
    let got = decode-encode_request wire (replicate (116 - length bytes) 0) fits in
    let head = get_header-encode_request wire (replicate (116 - length bytes) 0) fits in
    ground (arith, n, got, head, terminate-copy_name name, copy_name_idem name)
